-- ===== src/Invite.antt =====
-- conformance/check_invite.py: the canonical text that is signed, the compact binary of a link, and the
-- vectors that `build` makes of them. The public key of a seed and the Ed25519 signature are
-- parameters; a text is the list of its code points.
pub mod Canonical
pub mod Binary
mod Tests
use construct_protos.Prelude.{
  ℕ, ◌+◌, ◌*◌, ◌-◌, List, [], ◌∷◌, ◌++◌, Bool, true, false, ◌&&◌, Option, none, some, map, leb,
  ◌==◌, if◌then◌else◌, take, drop, length, String,
}
use construct_protos.Prelude.Result.{ok, err, Raises, value_error, ◌>>=◌}
use construct_protos.Bytes.{Bytes, pack_be, bytes_of, codes}
use construct_protos.Bytes.Hex.{hex, fromhex, digit_value}
use construct_protos.Bytes.Decimal.{decimal}
use construct_protos.Proto.{utf8}

abbrev pub Text : Type 0
Text = List ℕ

-- MAGIC
abbrev pub magic : Bytes
magic = codes "CIv1"

-- FLAG_HAS_USERNAME
abbrev pub flag_has_username : ℕ
flag_has_username = 1

-- The dict `f`.
pub record Fields : Type 0 where
  pub v : ℕ
  pub jti : Text
  pub uuid : Text
  pub device_id : Text
  pub server : Text
  pub ts : ℕ
  pub un : Option Text
  pub ttl : ℕ
  pub addr : Text

-- str.lower of ASCII text
unfoldable pub lower_char : ℕ → ℕ
lower_char c = if leb b'A' c && leb c b'Z' then c + 32 else c

unfoldable pub lower : Text → Text
unfolding lower_char
lower t = map lower_char t

-- f.get("un") or ""
abbrev pub un_of : Option Text → Text
un_of none = []
un_of (some t) = t

-- "|".join(...)
unfoldable pub join_bar : List Text → Text
join_bar [] = []
join_bar (t ∷ []) = t
join_bar (t ∷ u ∷ ts) = t ++ (b'|' ∷ join_bar (u ∷ ts))

-- The parts of the canonical text.
unfoldable pub parts : Fields → List Text
parts f =
    decimal f.v
    ∷ lower f.jti
    ∷ lower f.uuid
    ∷ f.device_id
    ∷ f.server
    ∷ decimal f.ts
    ∷ un_of f.un
    ∷ decimal f.ttl
    ∷ f.addr
    ∷ []

unfoldable pub canonical : Fields → Text
unfolding parts
canonical f = join_bar (parts f)

abbrev pub digit_of : Option ℕ → Raises ℕ
digit_of none = err value_error
digit_of (some d) = ok d

-- Pairs of hexadecimal digits.
unfoldable pub pairs : Text → Raises Bytes
pairs [] = ok []
pairs (c ∷ []) = err value_error
pairs (c ∷ d ∷ cs) = do
  h ← digit_of (digit_value c)
  l ← digit_of (digit_value d)
  rest ← pairs cs
  ok ((h * 16 + l) ∷ rest)

-- .replace("-", "")
unfoldable pub without_dashes : Text → Text
without_dashes [] = []
without_dashes (c ∷ cs) = let rest = without_dashes cs in if c == b'-' then rest else c ∷ rest

-- uuid.UUID(text).bytes, of 32 digits with dashes between them. The library takes braces, a prefix
-- `urn:uuid:` and what `int` allows between digits too; no invite has them, and they are refused here.
unfoldable pub uuid_of : Text → Raises Bytes
unfolding pairs without_dashes
uuid_of text =
    if length (without_dashes text) == 32 then pairs (without_dashes text) else err value_error

-- FLAG_HAS_USERNAME if un else 0
abbrev pub flag_of : Bytes → ℕ
flag_of [] = 0
flag_of (b ∷ bs) = flag_has_username

-- if un: out += bytes([len(un)]) + un
abbrev pub un_part : Bytes → Raises Bytes
un_part [] = ok []
un_part (b ∷ bs) = do size ← bytes_of (length (b ∷ bs) ∷ []); ok (size ++ (b ∷ bs))

unfoldable pub binary : Fields → Bytes → Raises Bytes
binary f sig = do
  flags ← bytes_of (flag_of (utf8 (un_of f.un)) ∷ f.v ∷ [])
  jti ← uuid_of f.jti
  uuid ← uuid_of f.uuid
  device ← fromhex f.device_id
  ts ← pack_be 8 f.ts
  size ← bytes_of (length (utf8 f.server) ∷ [])
  name ← un_part (utf8 (un_of f.un))
  ttl ← pack_be 4 f.ttl
  addr ← fromhex f.addr
  ok (
      magic
      ++ (flags
          ++ (jti
              ++ (uuid
                  ++ (device
                      ++ (ts ++ (sig ++ (size ++ (utf8 f.server ++ (name ++ (ttl ++ addr)))))))))))

-- The dict that `derive` returns.
pub record Derived : Type 0 where
  pub verifying_key : Text
  pub canonical_text : Text
  pub signature : Text
  pub binary_hex : Text

module _ (public : Bytes → Bytes) (sign : Bytes → Bytes → Bytes) where
  unfoldable pub derive : Text → Fields → Raises Derived
  unfolding canonical binary
  derive seed_hex fields = do
    seed ← fromhex seed_hex
    let sig = sign seed (utf8 (canonical fields))
    out ← binary fields sig
    ok (record {
      verifying_key = hex (public seed);
      canonical_text = canonical fields;
      signature = hex sig;
      binary_hex = hex out;
    })

-- SEED
abbrev pub seed : Text
seed = codes "9d61b19deffd5a60ba844af492ec2cc44449c5697b326919703bac031cae7f60"

-- BASE, with the username
abbrev pub base : Option Text → Fields
base un = record {
  v = 5;
  jti = codes "7c9e6679-7425-40de-944b-e07fc1f90ae7";
  uuid = codes "14f28d31-5b2a-4c1e-9a3d-6f0e2b7c8d90";
  device_id = codes "6f5e37ac1b2c3d4e5f60718293a4b5c6";
  server = codes "konstruct.cc";
  ts = 1790000000;
  un = un;
  ttl = 300;
  addr = codes "3d4017c3e843895a92b70aa74d1b7ebc9c982ccf2ec4968cc0cd55f12af4660c";
}

-- The binaries that are refused, from a good one.
unfoldable pub refused : Bytes → List (Text × Bytes)
refused good =
    (codes "version_4", take 5 good ++ (4 ∷ drop 6 good))
    ∷ (codes "addr_truncated", take (length good - 1) good)
    ∷ (codes "trailing_byte", good ++ (0 ∷ []))
    ∷ []

-- The vectors: the names and what `derive` makes of them, and the binaries that are refused.
unfoldable pub build :
    (Bytes → Bytes) → (Bytes → Bytes → Bytes) → Raises (List (Text × Derived) × List (Text × Bytes))
unfolding derive refused
build public sign = do
  first ← derive public sign seed (base (some (codes "alice")))
  second ← derive public sign seed (base none)
  good ← fromhex first.binary_hex
  ok ((codes "with_username", first) ∷ (codes "without_username", second) ∷ [], refused good)
