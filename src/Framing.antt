-- ===== src/Framing.antt =====
-- The address that the manager writes ahead of a connection's bytes (`preWrite` of `CreateProxy`,
-- pkg/entry/transport/gatekeeper.go), and how the edge reads it (pkg/edge/proxy/proxy.go). A stream
-- is the list of bytes that have been written and not read. JSON is a parameter.
pub mod RoundTrip
use liaison.Base.{
  ℕ, zero, suc, ◌+◌, ◌*◌, ◌/◌, ◌%◌, ◌^◌, String, Bool, true, false, Option, none, some, List, [],
  ◌∷◌, ◌++◌,
}
use liaison.Base.Exec.{Result, ok, err, Exec, lift, ◌>>=◌, ◌>>◌}
use liaison.Base.Lists.{length}
use liaison.Agent.Tool.Types.{Bytes}

-- `proto.Dst`.
pub record Dst : Type 0 where
  pub addr : String
  pub application_id : ℕ
  pub proxy_id : ℕ

-- `json.Marshal` and `json.Unmarshal` of a `Dst`; errors are numbers.
pub record DstJson : Type 0 where
  pub marshal : Dst → Result ℕ Bytes
  pub unmarshal : Bytes → Option Dst

-- How a write ends: all bytes are written, or some of them and an error.
pub data Outcome : Type 0 where
  written : Outcome
  broken : Bytes → ℕ → Outcome

unfoldable pub write : Outcome → Bytes → Exec Bytes ℕ (Unit {0})
write written bytes stream = (ok tt, stream ++ bytes)
write (broken part x) bytes stream = (err x, stream ++ part)

-- `binary.BigEndian.PutUint32(lengthBuf, uint32(n))`.
unfoldable pub put_uint32 : ℕ → Bytes
put_uint32 n =
    let w = n % 2 ^ 32 in
    (w / 2 ^ 24) ∷ (w / 2 ^ 16 % 2 ^ 8) ∷ (w / 2 ^ 8 % 2 ^ 8) ∷ (w % 2 ^ 8) ∷ []

-- `preWrite`, with the outcomes of its two writes.
unfoldable pub pre_write : DstJson → Outcome → Outcome → Dst → Exec Bytes ℕ (Unit {0})
pre_write json first second dst = do
  text ← lift (json.marshal dst)
  write first (put_uint32 (length text))
  write second text

-- `binary.BigEndian.Uint32` of four bytes.
abbrev pub uint32 : Bytes → Option ℕ
uint32 (a ∷ b ∷ c ∷ d ∷ []) = some (a * 2 ^ 24 + b * 2 ^ 16 + c * 2 ^ 8 + d)
uint32 _ = none

abbrev pub with_first : ℕ → Option (Bytes × Bytes) → Option (Bytes × Bytes)
with_first b none = none
with_first b (some (front, rest)) = some (b ∷ front, rest)

-- `io.ReadFull` of a buffer of this size: what is read, and what is left. A stream that ends too
-- early is an error.
unfoldable pub read_full : ℕ → Bytes → Option (Bytes × Bytes)
read_full zero stream = some ([], stream)
read_full (suc n) [] = none
read_full (suc n) (b ∷ stream) = with_first b (read_full n stream)

abbrev pub decoded : DstJson → Option (Bytes × Bytes) → Option (Dst × Bytes)
decoded json none = none
decoded json (some (text, rest)) = beside (json.unmarshal text)
  where
    beside : Option Dst → Option (Dst × Bytes)
    beside none = none
    beside (some dst) = some (dst, rest)

abbrev pub read_meta : DstJson → Option ℕ → Bytes → Option (Dst × Bytes)
read_meta json none stream = none
read_meta json (some n) stream = decoded json (read_full n stream)

abbrev pub read_behind : DstJson → Option (Bytes × Bytes) → Option (Dst × Bytes)
read_behind json none = none
read_behind json (some (header, stream)) = read_meta json (uint32 header) stream

-- The edge's `proxy`, up to its dial: the address, and the bytes that follow for the connection.
unfoldable pub read_dst : DstJson → Bytes → Option (Dst × Bytes)
read_dst json stream = read_behind json (read_full 4 stream)
