-- ===== src/History/Hello/Sizes.antt =====
-- Keys of the lengths that the algorithms have, and the lengths of parts of a frame.
use construct_protos.Prelude.{
  ℕ, ◌+◌, ◌^◌, ◌<◌, ◌≡◌, ◌∙◌, refl, ap, ◌++◌, take, drop, length, All, arith, append_assoc,
  length-append, take_prefix, drop_prefix, ==_refl,
}
use construct_protos.Prelude.Result.{ok}
use construct_protos.Bytes.{Bytes, IsByte}
use construct_protos.Bytes.Hex.{hex}
use construct_protos.History.Hello.{Keys, of_length}

-- Keys as bytes.
pub record KeyBytes : Type 0 where
  pub sender_eph : Bytes
  pub receiver_eph : Bytes
  pub offering_identity : Bytes
  pub receiver_identity : Bytes
  pub hybrid : Bytes
  pub offering_device_id : Bytes
  pub receiver_device_id : Bytes
  pub kyber_key_id : ℕ
  pub kem_ct : Bytes

abbrev pub IsOf : ℕ → Bytes → Type 0
IsOf n b = All IsByte b × (length b ≡ n)

-- Each key has the length of its algorithm.
abbrev pub AreSized : KeyBytes → Type 0
AreSized k =
    IsOf 32 k.sender_eph
    × IsOf 32 k.receiver_eph
    × IsOf 32 k.offering_identity
    × IsOf 32 k.receiver_identity
    × IsOf 1984 k.hybrid
    × IsOf 16 k.offering_device_id
    × IsOf 16 k.receiver_device_id
    × (k.kyber_key_id < 256 ^ 4)
    × IsOf 1568 k.kem_ct

-- The texts of the keys, as the helper prints them.
abbrev pub texts : KeyBytes → Keys
texts k = record {
  sender_eph_public = hex k.sender_eph;
  receiver_eph_public = hex k.receiver_eph;
  offering_identity_public = hex k.offering_identity;
  receiver_identity_public = hex k.receiver_identity;
  hybrid_public = hex k.hybrid;
  offering_device_id_raw = hex k.offering_device_id;
  receiver_device_id_raw = hex k.receiver_device_id;
  kyber_key_id = k.kyber_key_id;
  kem_ct = hex k.kem_ct;
}

pub of_length_ok : (n : ℕ) (b : Bytes) → length b ≡ n → of_length n b ≡ ok b
unfolding of_length
of_length_ok n b h = rw (h, ==_refl n) refl

-- A field behind a known number of bytes.
pub field_at :
    (n m : ℕ) (p f rest : Bytes)
    → length p ≡ n
    → length f ≡ m
    → take m (drop n (p ++ (f ++ rest))) ≡ f
field_at n m p f rest hp hf = ap (take m) (drop_prefix n p (f ++ rest) hp) ∙ take_prefix m f rest hf

pub regroup :
    (p i h s a b k m g : Bytes)
    → p ++ ((i ++ (h ++ (s ++ (a ++ (b ++ (k ++ m)))))) ++ g)
      ≡ (p ++ (i ++ (h ++ (s ++ (a ++ (b ++ k)))))) ++ (m ++ g)
regroup p i h s a b k m g = simp append_assoc

-- The lengths of parts add up.
pub length_seven :
    (p i h s a b k : Bytes) (x y z u : ℕ)
    → length p ≡ x
    → length i ≡ y
    → length h ≡ z
    → length s ≡ 16
    → length a ≡ 16
    → length b ≡ 16
    → length k ≡ u
    → length (p ++ (i ++ (h ++ (s ++ (a ++ (b ++ k)))))) ≡ x + y + z + 48 + u
length_seven p i h s a b k x y z u hp hi hh hs ha hb hk =
    simp (length-append, hp, hi, hh, hs, ha, hb, hk) (omega arith)
