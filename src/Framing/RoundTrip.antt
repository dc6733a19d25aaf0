-- ===== src/Framing/RoundTrip.antt =====
-- The edge reads the address that the manager has written (pkg/entry/transport/gatekeeper.go,
-- pkg/edge/proxy/proxy.go).
use liaison.Base.{ℕ, ◌^◌, ◌<◌, ◌≡◌, refl, ap, some, [], ◌∷◌, ◌++◌, arith}
use liaison.Base.Exec.{ok}
use liaison.Base.Lists.{length}
use liaison.Agent.Tool.Types.{Bytes}
use liaison.Framing.{
  Dst, DstJson, written, write, put_uint32, pre_write, uint32, read_full, read_dst,
}

uint32-put_uint32 : (n : ℕ) → n < 2 ^ 32 → uint32 (put_uint32 n) ≡ some n
unfolding put_uint32
uint32-put_uint32 n h = ap some (omega arith)

read_full-append :
    (front rest : Bytes) → read_full (length front) (front ++ rest) ≡ some (front, rest)
unfolding read_full
read_full-append [] rest = refl
read_full-append (b ∷ front) rest = rw (read_full-append front rest) refl

read_full-put_uint32 :
    (n : ℕ) (rest : Bytes) → read_full 4 (put_uint32 n ++ rest) ≡ some (put_uint32 n, rest)
unfolding put_uint32
read_full-put_uint32 n rest = read_full-append (put_uint32 n) rest

append_assoc : (a b c : Bytes) → (a ++ b) ++ c ≡ a ++ (b ++ c)
append_assoc [] b c = refl
append_assoc (x ∷ a) b c = cc (append_assoc a b c)

sent_lem :
    (json : DstJson) (dst : Dst) (text : Bytes)
    → json.marshal dst ≡ ok text
    → pre_write json written written dst [] ≡ (ok tt, put_uint32 (length text) ++ text)
unfolding pre_write write
sent_lem json dst text encoded = rw encoded refl

received_lem :
    (json : DstJson) (dst : Dst) (text client : Bytes)
    → json.unmarshal text ≡ some dst
    → length text < 2 ^ 32
    → read_dst json (put_uint32 (length text) ++ (text ++ client)) ≡ some (dst, client)
unfolding read_dst
received_lem json dst text client decodes short =
    rw (read_full-put_uint32 (length text) (text ++ client)) (
      rw (uint32-put_uint32 (length text) short)
        (rw (read_full-append text client) (rw decodes refl)))

-- What the manager writes ahead of a connection on a fresh stream, followed by any bytes of the
-- client, is read by the edge as the same address, and the client's bytes are left, provided that
-- the JSON of the address is shorter than 2 ^ 32 bytes and decodes to it, and both writes succeed.
pub read_dst-pre_write :
    (json : DstJson) (dst : Dst) (text client : Bytes)
    → json.marshal dst ≡ ok text
    → json.unmarshal text ≡ some dst
    → length text < 2 ^ 32
    → let sent = pre_write json written written dst [] in
      (sent.0 ≡ ok tt) × (read_dst json (sent.1 ++ client) ≡ some (dst, client))
read_dst-pre_write json dst text client encoded decodes short =
    rw (sent_lem json dst text encoded) (
      (
        refl,
        rw (append_assoc (put_uint32 (length text)) text client)
            (received_lem json dst text client decodes short),
      ))
