-- ===== src/Invite/Tests.antt =====
-- The invite of the vectors: its canonical text, its binary, and the theorems at it.
use construct_protos.Prelude.{
  ◌+◌, ◌≡◌, refl, [], ◌∷◌, ◌++◌, some, take, drop, slice, length, replicate, arith,
}
use construct_protos.Prelude.Result.{ok}
use construct_protos.Bytes.{Bytes, be, of_be, codes}
use construct_protos.Bytes.Hex.{fromhex, digit_value, is_space}
use construct_protos.Bytes.Decimal.{decimal}
use construct_protos.Proto.{utf8}
use construct_protos.Invite.{Fields, lower, un_of, uuid_of, canonical, join_bar, binary, base}
use construct_protos.Invite.Canonical.{IsBarless, canonical_injective}
use construct_protos.Invite.Binary.{Written, named, username_flag, binary_reads}

abbrev alice : Fields
alice = base (some (codes "alice"))

canonical-alice :
    canonical alice
    ≡ codes
        "5|7c9e6679-7425-40de-944b-e07fc1f90ae7|14f28d31-5b2a-4c1e-9a3d-6f0e2b7c8d90|6f5e37ac1b2c3d4e5f60718293a4b5c6|konstruct.cc|1790000000|alice|300|3d4017c3e843895a92b70aa74d1b7ebc9c982ccf2ec4968cc0cd55f12af4660c"
unfolding canonical join_bar decimal lower
canonical-alice = refl

alice-IsBarless : IsBarless alice
alice-IsBarless = record {
  jti = omega arith;
  uuid = omega arith;
  device_id = omega arith;
  server = omega arith;
  un = omega arith;
  addr = omega arith;
}

abbrev jti_bytes : Bytes
jti_bytes =
    0x7c ∷ 0x9e ∷ 0x66 ∷ 0x79 ∷ 0x74 ∷ 0x25 ∷ 0x40 ∷ 0xde ∷ 0x94 ∷ 0x4b ∷ 0xe0 ∷ 0x7f ∷ 0xc1 ∷ 0xf9
    ∷ 0x0a ∷ 0xe7 ∷ []

abbrev uuid_bytes : Bytes
uuid_bytes =
    0x14 ∷ 0xf2 ∷ 0x8d ∷ 0x31 ∷ 0x5b ∷ 0x2a ∷ 0x4c ∷ 0x1e ∷ 0x9a ∷ 0x3d ∷ 0x6f ∷ 0x0e ∷ 0x2b ∷ 0x7c
    ∷ 0x8d ∷ 0x90 ∷ []

abbrev device_bytes : Bytes
device_bytes =
    0x6f ∷ 0x5e ∷ 0x37 ∷ 0xac ∷ 0x1b ∷ 0x2c ∷ 0x3d ∷ 0x4e ∷ 0x5f ∷ 0x60 ∷ 0x71 ∷ 0x82 ∷ 0x93 ∷ 0xa4
    ∷ 0xb5 ∷ 0xc6 ∷ []

abbrev addr_bytes : Bytes
addr_bytes =
    0x3d ∷ 0x40 ∷ 0x17 ∷ 0xc3 ∷ 0xe8 ∷ 0x43 ∷ 0x89 ∷ 0x5a ∷ 0x92 ∷ 0xb7 ∷ 0x0a ∷ 0xa7 ∷ 0x4d ∷ 0x1b
    ∷ 0x7e ∷ 0xbc ∷ 0x9c ∷ 0x98 ∷ 0x2c ∷ 0xcf ∷ 0x2e ∷ 0xc4 ∷ 0x96 ∷ 0x8c ∷ 0xc0 ∷ 0xcd ∷ 0x55
    ∷ 0xf1 ∷ 0x2a ∷ 0xf4 ∷ 0x66 ∷ 0x0c ∷ []

abbrev sig : Bytes
sig = replicate 64 0

alice-Written : Written alice sig jti_bytes uuid_bytes device_bytes addr_bytes
unfolding uuid_of fromhex digit_value is_space utf8
alice-Written = record {
  version = omega arith;
  jti_read = refl;
  uuid_read = refl;
  device_read = refl;
  device_size = refl;
  time = omega arith;
  signature_size = refl;
  server = omega arith;
  username = omega arith;
  lifetime = omega arith;
  addr_read = refl;
  addr_size = refl;
}

canonical_injective_example :
    (alice.v ≡ alice.v)
    × (lower alice.jti ≡ lower alice.jti)
    × (lower alice.uuid ≡ lower alice.uuid)
    × (alice.device_id ≡ alice.device_id)
    × (alice.server ≡ alice.server)
    × (alice.ts ≡ alice.ts)
    × (un_of alice.un ≡ un_of alice.un)
    × (alice.ttl ≡ alice.ttl)
    × (alice.addr ≡ alice.addr)
canonical_injective_example = canonical_injective alice alice alice-IsBarless alice-IsBarless refl

binary_reads_example :
    (out : Bytes) × (binary alice sig ≡ ok out)
    × (take 6 out ≡ codes "CIv1" ++ (username_flag (utf8 (un_of alice.un)) ∷ alice.v ∷ []))
    × (slice 6 22 out ≡ jti_bytes)
    × (slice 22 38 out ≡ uuid_bytes)
    × (slice 38 54 out ≡ device_bytes)
    × (of_be (slice 54 62 out) ≡ alice.ts)
    × (slice 62 126 out ≡ sig)
    × (slice 126 127 out ≡ length (utf8 alice.server) ∷ [])
    × (slice 127 (127 + length (utf8 alice.server)) out ≡ utf8 alice.server)
    × (drop (127 + length (utf8 alice.server)) out
        ≡ named (utf8 (un_of alice.un)) ++ (be 4 alice.ttl ++ addr_bytes))
binary_reads_example =
    binary_reads alice sig jti_bytes uuid_bytes device_bytes addr_bytes alice-Written
