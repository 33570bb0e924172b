-- ===== src/Bytes/Made.antt =====
-- What a call that returned bytes returned: numbers below 256.
use construct_protos.Prelude.{
  ℕ, ◌^◌, ◌≡◌, subst, List, [], ◌∷◌, ltb, ltb→lt, ◌++◌, All, All-append, Bool-cases, inl, inr,
}
use construct_protos.Prelude.Result.{ok, bind_ok, ok_injective, err_ne_ok}
use construct_protos.Bytes.{Bytes, IsByte, pack_le, bytes_of}
use construct_protos.Bytes.Hex.{fromhex, fromhex-IsByte}
use construct_protos.Bytes.Struct.{le-IsByte}

pack_le-IsByte : (w n : ℕ) {b : Bytes} → pack_le w n ≡ ok b → All IsByte b
unfolding pack_le
pack_le-IsByte w n e = elim (Bool-cases (ltb n (256 ^ w))) [
  | inl k ↦ subst (All IsByte) (ok_injective (rw k at e)) (le-IsByte w n)
  | inr k ↦ absurd (err_ne_ok (rw k at e))
]

bytes_of-IsByte : (ns : List ℕ) {b : Bytes} → bytes_of ns ≡ ok b → All IsByte b
unfolding bytes_of
bytes_of-IsByte [] e = subst (All IsByte) (ok_injective e) tt
bytes_of-IsByte (n ∷ ns) e =
    let (more, run, e') = bind_ok (bytes_of ns) _ e in
    elim (Bool-cases (ltb n 256)) [
      | inl k ↦
          subst (All IsByte) (ok_injective (rw k at e')) (ltb→lt n 256 k, bytes_of-IsByte ns run)
      | inr k ↦ absurd (err_ne_ok (rw k at e'))
    ]

-- Numbers that are all bytes, behind a name: the list can then be found from the fact.
pub record AreBytes (b : Bytes) : Type 0 where
  pub all : All IsByte b

-- Two parts that are bytes, put together.
infixr 5 ◌&◌
pub ◌&◌ : {a b : Bytes} → AreBytes a → AreBytes b → AreBytes (a ++ b)
◌&◌ {a} {b} h k = record { all = All-append IsByte a b h.all k.all }

pub pack_le-AreBytes : (w n : ℕ) {b : Bytes} → pack_le w n ≡ ok b → AreBytes b
pack_le-AreBytes w n e = record { all = pack_le-IsByte w n e }

pub bytes_of-AreBytes : (ns : List ℕ) {b : Bytes} → bytes_of ns ≡ ok b → AreBytes b
bytes_of-AreBytes ns e = record { all = bytes_of-IsByte ns e }

pub fromhex-AreBytes : (cs : List ℕ) {b : Bytes} → fromhex cs ≡ ok b → AreBytes b
fromhex-AreBytes cs e = record { all = fromhex-IsByte cs e }
