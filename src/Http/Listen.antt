-- ===== src/Http/Listen.antt =====
-- http.c: bind_listen, http_child_tls_init and tls_wrap_client, as the calls that succeed or not.
use gpu_health_index.Prelude.{
  ℕ, Bool, true, false, not, ◌&&◌, Option, none, some, List, [], ◌∷◌, if◌then◌else◌,
}
use gpu_health_index.Util.{is_empty}

-- the descriptor of socket; inet_aton, bind and listen
pub record ListenAnswers : Type 0 where
  pub socket : Option ℕ
  pub address_ok : Bool
  pub bind_ok : Bool
  pub listen_ok : Bool

-- The result, or `none` for -1, and the descriptors that are left open.
unfoldable pub bind_listen : ListenAnswers → Option ℕ × List ℕ
bind_listen a = with_socket a.socket
  where
    with_socket : Option ℕ → Option ℕ × List ℕ
    with_socket none = (none, [])
    with_socket (some fd) =
        if not a.address_ok
        then (none, [])
        else if not a.bind_ok
        then (none, [])
        else if not a.listen_ok
        then (none, [])
        else (some fd, fd ∷ [])

-- the seed of the generator; the certificate and the key; the defaults; and the pair of the two
pub record TlsAnswers : Type 0 where
  pub seed_ok : Bool
  pub cert_ok : Bool
  pub key_ok : Bool
  pub defaults_ok : Bool
  pub own_cert_ok : Bool

-- g_tls_enabled afterwards, or `none` for -1
unfoldable pub http_child_tls_init : List ℕ → List ℕ → TlsAnswers → Option Bool
http_child_tls_init cert_path key_path a =
    if is_empty cert_path
    then some false
    else if is_empty key_path
    then none
    else if not a.seed_ok
    then none
    else if not a.cert_ok
    then none
    else if not a.key_ok
    then none
    else if not a.defaults_ok
    then none
    else if not a.own_cert_ok
    then none
    else some true

-- what mbedtls_ssl_handshake returns: 0, one of the two codes to call again, or an error
pub data Handshake : Type 0 where
  finished : Handshake
  want : Handshake
  refused : Handshake

-- Whether 0 is returned; a handshake that never ends is none.
unfoldable pub shake : List Handshake → Bool
shake [] = false
shake (finished ∷ hs) = true
shake (want ∷ hs) = shake hs
shake (refused ∷ hs) = false

unfoldable pub tls_wrap_client : Bool → List Handshake → Bool
unfolding shake
tls_wrap_client setup_ok hs = setup_ok && shake hs

abbrev pub is_some {ℓ} : {A : Type ℓ} → Option A → Bool
is_some none = false
is_some (some a) = true
