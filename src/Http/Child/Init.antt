-- ===== src/Http/Child/Init.antt =====
-- The child learns the number of the GPUs from the first message of the parent.
use gpu_health_index.Prelude.{
  ℕ, zero, suc, ◌+◌, ◌-◌, ◌^◌, ◌≤◌, ◌<◌, ◌≡◌, refl, ap, ◌∙◌, true, not, ◌&&◌, List, [], ◌∷◌, ◌++◌,
  append_assoc, take, drop, length, ltb, ◌==◌, if◌then◌else◌, arith, inl, inr, Bool-cases,
  length-append, length-take,
}
use gpu_health_index.Prelude.Int.{pos, to_int}
use gpu_health_index.Types.{Snapshot}
use gpu_health_index.Snapshot.Transfer.{
  Call, moved, interrupted, failed, Outcome, ok, error, waiting,
}
use gpu_health_index.Snapshot.Transfer.Whole.{take_upto, same_cut}
use gpu_health_index.Http.Slots.{fresh_receiver, stale_threshold}
use gpu_health_index.Http.Listen.{bind_listen, is_some}
use gpu_health_index.Http.Child.{
  init_bytes, init_value, read_init, ChildAnswers, exits, serves, with_gpus, after_init,
  http_child_run,
}

init_value-init_bytes : (n : ℕ) → n < 2 ^ 32 → init_value (init_bytes n) ≡ n
unfolding init_value init_bytes
init_value-init_bytes n h = omega arith

-- every byte is in the buffer or on the wire, and a loop that ends well has read `r` of them
read_init-split :
    (r : ℕ) (wire buf : List ℕ) (cs : List Call)
    → let (got, left, outcome) = read_init r wire buf cs in
      (got ++ left ≡ buf ++ wire) × (outcome ≡ ok → length got ≡ length buf + r)
unfolding read_init
read_init-split zero wire buf cs = (refl, λ _. omega arith)
read_init-split (suc r) wire buf [] = (refl, λ h. ground arith)
read_init-split (suc r) wire buf (interrupted ∷ cs) = (refl, λ h. ground arith)
read_init-split (suc r) wire buf (failed ∷ cs) = (refl, λ h. ground arith)
read_init-split (suc r) wire buf (moved n ∷ cs) = elim (Bool-cases (length got == 0)) [
  | inl q ↦ rw q (refl, λ h. ground arith)
  | inr q ↦
      let (same, full) =
        read_init-split (suc r - length got) (drop (length got) wire) (buf ++ got) cs in
      rw q (same ∙ whole, λ h. omega (arith, full h, short, length-append buf got))
]
  where
    got : List ℕ
    got = take n (take (suc r) wire)

    short : length got ≤ suc r
    short = omega (arith, length-take n (take (suc r) wire), length-take (suc r) wire)

    whole : buf ++ got ++ drop (length got) wire ≡ buf ++ wire
    whole =
        append_assoc buf got (drop (length got) wire)
        ∙ ap (λ l. buf ++ l) (take_upto n (suc r) wire)

small : (n : ℕ) → n < 2 ^ 31 → to_int n ≡ pos n
small n h = ground arith

module _ {D : Type 0} (zeroed : Snapshot D) where
  started :
      (a : ChildAnswers) (poll_interval_s : ℕ) (buf wire : List ℕ) (outcome : Outcome)
      (message more : List ℕ)
      → outcome ≡ ok
      → buf ≡ message
      → wire ≡ more
      → after_init zeroed a poll_interval_s (buf, wire, outcome)
        ≡ with_gpus zeroed a poll_interval_s (to_int (init_value message)) more
  started a poll_interval_s buf wire ok message more h e f =
      ap (λ m. with_gpus zeroed a poll_interval_s (to_int (init_value m)) wire) e
      ∙ ap (with_gpus zeroed a poll_interval_s (to_int (init_value message))) f
  started a poll_interval_s buf wire error message more h e f = ground arith
  started a poll_interval_s buf wire waiting message more h e f = ground arith

  with_gpus_lem :
      (a : ChildAnswers) (poll_interval_s n : ℕ) (wire : List ℕ)
      → with_gpus zeroed a poll_interval_s (pos n) wire ≡ (
          if ltb 0 n
            && not (ltb 256 n)
            && a.slots_allocated
            && a.thread_starts
            && is_some (bind_listen a.listen).0
          then serves
              (record { receiver = fresh_receiver n zeroed; serving = true })
              (stale_threshold poll_interval_s)
              wire
          else exits)
  unfolding with_gpus
  with_gpus_lem a poll_interval_s n wire = ground arith

  -- The child that reads the message of the parent for `n` GPUs, however it is cut into reads, starts
  -- to serve exactly `n` slots, of which none has reported, and leaves on the socket what follows the
  -- message, if there are 1 to 256 GPUs and its resources are to be had; else it exits.
  pub http_child_run-gpus :
      (a : ChildAnswers) (poll_interval_s n : ℕ) (more : List ℕ)
      → n < 2 ^ 31
      → (read_init 4 (init_bytes n ++ more) [] a.reads).2 ≡ ok
      → http_child_run zeroed a poll_interval_s (init_bytes n ++ more) ≡ (
          if ltb 0 n
            && not (ltb 256 n)
            && a.slots_allocated
            && a.thread_starts
            && is_some (bind_listen a.listen).0
          then serves
              (record { receiver = fresh_receiver n zeroed; serving = true })
              (stale_threshold poll_interval_s)
              more
          else exits)
  unfolding http_child_run
  http_child_run-gpus a poll_interval_s n more h r =
      let result = read_init 4 (init_bytes n ++ more) [] a.reads in
      let (same, full) = read_init-split 4 (init_bytes n ++ more) [] a.reads in
      let len : length result.0 ≡ length (init_bytes n) = unfold init_bytes in full r in
      let (got, left) = same_cut result.0 (init_bytes n) result.1 more same len in
      started a poll_interval_s result.0 result.1 result.2 (init_bytes n) more r got left
      ∙ ap (λ v. with_gpus zeroed a poll_interval_s (to_int v) more)
          (init_value-init_bytes n (omega arith))
      ∙ ap (λ z. with_gpus zeroed a poll_interval_s z more) (small n h)
      ∙ with_gpus_lem a poll_interval_s n more
