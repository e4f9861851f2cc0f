-- ===== src/Tests/Metrics.antt =====
-- /metrics of two GPUs, of which one has reported.
use gpu_health_index.Prelude.{
  ℕ, ◌-◌, ◌≤◌, ◌≡◌, refl, true, false, none, some, List, [], ◌∷◌, length, arith,
}
use gpu_health_index.Prelude.Int.{pos, negsuc}
use gpu_health_index.Types.{IpcMsg}
use gpu_health_index.Http.Slots.{Receiver, ipc_receiver, receive, fresh_receiver}
use gpu_health_index.Http.Slots.Refine.{last_for}
use gpu_health_index.Http.Serve.{Client, answer}
use gpu_health_index.Http.Scraped.{end_of, expected, tabulate, metrics-served}
use gpu_health_index.Double.Fixed.{Fixed, fixed_double}
use gpu_health_index.Config.Table.{bytes}
use gpu_health_index.Snapshot.Update.{blank_snapshot}
use gpu_health_index.Http.Slots.{Slot}
use gpu_health_index.Http.Request.{has_byte}
use gpu_health_index.Http.Buffer.{concat}
use gpu_health_index.Http.Metrics.Family.{Printf, IsOneLine}
use gpu_health_index.Http.Metrics.Render.{metrics_texts, families, metrics_buf_size}
use gpu_health_index.Http.Metrics.Scrape.{read_metrics}
use gpu_health_index.Http.Metrics.Whole.{ArePlain}

-- every number as one of three texts
abbrev pub sign_text : Fixed → List ℕ
sign_text none = bytes "nan"
sign_text (some (pos n)) = bytes "1.5"
sign_text (some (negsuc n)) = bytes "-1.5"

abbrev pub printf : Printf Fixed
printf = record { fixed = λ n x. sign_text x; general = sign_text }

sign_text_line : (x : Fixed) → has_byte 10 (sign_text x) ≡ false
unfolding has_byte
sign_text_line none = refl
sign_text_line (some (pos n)) = refl
sign_text_line (some (negsuc n)) = refl

printf-IsOneLine : IsOneLine printf
printf-IsOneLine = record { fixed_line = λ n x. sign_text_line x; general_line = sign_text_line }

abbrev reported : Slot Fixed
reported = record {
  snap = record blank_snapshot {
    serial = bytes "1320";
    uuid = bytes "GPU-7";
    fan_speed_pct = negsuc 0;
  };
  received = true;
}

-- two messages for the second of two GPUs, of which the last one counts, and one for no GPU
abbrev messages : List (IpcMsg Fixed)
messages =
    record { gpu_index = pos 1; snapshot = blank_snapshot }
    ∷ record { gpu_index = pos 7; snapshot = blank_snapshot }
    ∷ record { gpu_index = pos 1; snapshot = reported.snap }
    ∷ []

abbrev scraper : Client
scraper = record {
  tls = none;
  reads = [];
  writes = [];
  buffer_ok = true;
  copy_ok = true;
  now_ms = 1000;
}

abbrev receiver : Receiver Fixed
receiver = end_of printf-IsOneLine 2 blank_snapshot messages

slots_ArePlain : ArePlain receiver.slots
unfolding has_byte ipc_receiver receive fresh_receiver
slots_ArePlain = (
  record {
    serial_line = refl;
    serial_unquoted = refl;
    uuid_line = refl;
    model_line = refl;
    driver_line = refl;
  },
  (
    record {
      serial_line = refl;
      serial_unquoted = refl;
      uuid_line = refl;
      model_line = refl;
      driver_line = refl;
    },
    tt,
  ),
)

text_fits : length (concat (metrics_texts printf receiver.slots)) ≤ metrics_buf_size - 1
unfolding metrics_texts ipc_receiver receive fresh_receiver
text_fits = omega arith

metrics-served_example :
    let r = answer printf 5000 receiver scraper (bytes "GET") (bytes "/metrics") in
    (true ≡ true
      → (r.status ≡ 200)
        × (read_metrics r.body
            ≡ expected printf families (tabulate 2 (λ i. last_for i messages none))))
    × (true ≡ false → r.status ≡ 500)
metrics-served_example =
    metrics-served printf-IsOneLine 2 blank_snapshot messages 5000 scraper (omega arith)
      slots_ArePlain text_fits
