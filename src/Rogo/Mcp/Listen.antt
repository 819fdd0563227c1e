-- ===== src/Rogo/Mcp/Listen.antt =====
-- Where src/host/rogo/mcp_server.py listens.
use radio_robot_lib.Prelude.{
  ℕ, ◌≡◌, ◌≢◌, refl, Bool, true, false, ◌&&◌, ◌||◌, not, Option, none, some, if◌then◌else◌,
}
use radio_robot_lib.Prelude.Text.{Text, codes, text_eq}
use radio_robot_lib.Python.Error.{Result, ok, err, listen_target_error}
use radio_robot_lib.Rogo.Target.{split_host_port}

-- `LOOPBACK_HOSTS`
unfoldable pub is_loopback : Text → Bool
is_loopback host =
    text_eq host (codes "127.0.0.1")
    || (text_eq host (codes "localhost") || text_eq host (codes "::1"))

unfoldable pub allowed : Bool → Option (Text × ℕ) → Result (Option (Text × ℕ))
unfolding is_loopback
allowed allow_remote none = err listen_target_error
allowed allow_remote (some (host, port)) =
    if not (is_loopback host) && not allow_remote
    then err listen_target_error
    else ok (some (host, port))

-- The same split as that of `--connect`.
unfoldable pub resolve_listen_target : Option Text → Bool → Result (Option (Text × ℕ))
unfolding allowed
resolve_listen_target none allow_remote = ok none
resolve_listen_target (some listen) allow_remote = allowed allow_remote (split_host_port listen)

-- How `serve` runs the server.
pub data Served : Type 0 where
  stdio : Served
  streamable_http : Text → ℕ → Served

unfoldable pub serve_at : Option (Text × ℕ) → Served
serve_at none = stdio
serve_at (some (host, port)) = streamable_http host port

unfoldable pub served : Result (Option (Text × ℕ)) → Result Served
unfolding serve_at
served (err e) = err e
served (ok target) = ok (serve_at target)

unfoldable pub serve : Option Text → Bool → Result Served
unfolding served
serve listen allow_remote = served (resolve_listen_target listen allow_remote)

abbrev address : Option Text → Option (Text × ℕ)
address none = none
address (some listen) = split_host_port listen

-- Where a server may be listening: nowhere, or at the address that was given, which is a loopback
-- one unless remote ones are allowed. An error is the refusal.
abbrev pub Guarded : Option Text → Bool → Result Served → Type 0
Guarded listen allow_remote (err e) = (e ≡ listen_target_error) × (listen ≢ none)
Guarded listen allow_remote (ok stdio) = listen ≡ none
Guarded listen allow_remote (ok (streamable_http host port)) =
    (address listen ≡ some (host, port)) × ((is_loopback host || allow_remote) ≡ true)

opened-Guarded :
    (listen : Text) (host : Text) (port : ℕ) (loopback allow_remote : Bool)
    → split_host_port listen ≡ some (host, port)
    → is_loopback host ≡ loopback
    → Guarded (some listen) allow_remote (
        served (
          if not loopback && not allow_remote
          then err listen_target_error
          else ok (some (host, port))))
unfolding served serve_at
opened-Guarded listen host port true allow_remote split e = (split, rw e refl)
opened-Guarded listen host port false true split e = (split, rw e refl)
opened-Guarded listen host port false false split e = (refl, λ h. cc)

split-Guarded :
    (listen : Text) (allow_remote : Bool) (o : Option (Text × ℕ))
    → split_host_port listen ≡ o
    → Guarded (some listen) allow_remote (served (allowed allow_remote o))
unfolding allowed served
split-Guarded listen allow_remote none split = (refl, λ h. cc)
split-Guarded listen allow_remote (some (host, port)) split =
    opened-Guarded listen host port (is_loopback host) allow_remote split refl

-- Without `--listen` the server runs over its standard streams. With it, it listens only at the
-- address that was given, and at one that is not a loopback host only if remote ones are allowed;
-- everything else is refused.
pub serve-Guarded :
    (listen : Option Text) (allow_remote : Bool)
    → Guarded listen allow_remote (serve listen allow_remote)
unfolding serve resolve_listen_target served serve_at
serve-Guarded none allow_remote = refl
serve-Guarded (some listen) allow_remote = split-Guarded listen allow_remote _ refl
