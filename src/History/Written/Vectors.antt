-- ===== src/History/Written/Vectors.antt =====
-- The vectors of the streams are kept within the lengths that the generator has, for a source device
-- and an identity key of their lengths.
use construct_protos.Prelude.{
  ℕ, zero, suc, ◌/◌, ◌%◌, ◌<◌, ◌≡◌, ◌≢◌, refl, List, [], ◌∷◌, some, All, arith, length, map,
  replicate,
}
use construct_protos.Prelude.Result.{ok}
use construct_protos.Bytes.{Bytes, IsByte}
use construct_protos.Bytes.Hex.{hex, hex_digit, length-hex}
use construct_protos.Proto.Payload.{IsPayload, IsText, weaker}
use construct_protos.History.Stream.Content.{IsKept, longest}
use construct_protos.History.Records.Vectors.{Vector, vectors_of, stream_vectors, counts}
use construct_protos.History.Records.Sized.{
  limit, IsDeviceText, contact-IsPayload, chat-IsPayload, text_message-IsPayload,
  album_message-IsPayload, reaction-IsPayload, call-IsPayload, media-IsPayload,
  blob_first-IsPayload, future-IsPayload, profile_share-IsPayload, manifest-IsPayload,
  peer-IsPayload,
}
use construct_protos.History.Rows.{Outcome}
use construct_protos.History.Rows.Accepted.{verdict, verdicts}
use construct_protos.History.Written.Streams.{IsReady}

hex_digit-IsText : (d : ℕ) → d < 16 → hex_digit d < 0x11_0000
unfolding hex_digit
hex_digit-IsText d h = ground arith

hex-IsText : (b : Bytes) → All IsByte b → IsText (hex b)
unfolding hex
hex-IsText [] h = tt
hex-IsText (n ∷ b) h = (
  hex_digit-IsText (n / 16) (omega (arith, h.0)),
  (hex_digit-IsText (n % 16) (omega arith), hex-IsText b h.1),
)

pub hex-IsDeviceText : (b : Bytes) → All IsByte b → length b ≡ 16 → IsDeviceText (hex b)
hex-IsDeviceText b h k = (hex-IsText b h, omega (arith, length-hex b, k))

bad-IsDeviceText : IsDeviceText (replicate 32 48)
bad-IsDeviceText = omega arith

pub one-IsKept :
    (rtype : ℕ) {b : Bytes} → rtype ≢ 0 → rtype < 256 → IsPayload limit b → IsKept (rtype, b)
one-IsKept rtype nonzero small h = (nonzero, small, weaker longest (omega arith) h)

all_equal :
    (n : ℕ) (vs : List Vector) (o : Outcome)
    → map verdict vs ≡ replicate n o
    → All (λ v. verdict v ≡ o) vs
all_equal n [] o e = tt
all_equal zero (v ∷ vs) o e = cc
all_equal (suc n) (v ∷ vs) o e = (cc, all_equal n vs o cc)

ready :
    (vs : List Vector)
    → All (λ v. All IsKept v.written) vs
    → All (λ v. verdict v ≡ some (ok [])) vs
    → All (λ v. v.vid ≢ 23) vs
    → All IsReady vs
ready [] h k l = tt
ready (v ∷ vs) h k l = (record { kept = h.0; accepted = k.0; other = l.0 }, ready vs h.1 k.1 l.1)

others_than_23 :
    (t : List ℕ) (identity profile : Bytes) → All (λ v. v.vid ≢ 23) (vectors_of t identity profile)
others_than_23 t identity profile = (
  cc,
  (cc, (cc, (cc, (cc, (cc, (cc, (cc, (cc, (cc, (cc, (cc, (cc, (cc, (cc, (cc, tt))))))))))))))),
)

module _ (t : List ℕ) (identity profile : Bytes) (h : IsDeviceText t) (k : IsPayload 32 identity)
    (l : IsPayload limit profile) where
  kept : All (λ v. All IsKept v.written) (vectors_of t identity profile)
  kept =
      let man1 = one-IsKept 1 (cc) (omega arith) (manifest-IsPayload 1 t (counts 1 1 1 0) h) in
      let man2 = one-IsKept 1 (cc) (omega arith) (manifest-IsPayload 2 t (counts 0 0 0 1) h) in
      let man3 = one-IsKept 1 (cc) (omega arith) (manifest-IsPayload 3 t (counts 1 0 1 1) h) in
      let man0 = one-IsKept 1 (cc) (omega arith) (manifest-IsPayload 0 t (counts 0 0 0 0) h) in
      let contact = one-IsKept 2 (cc) (omega arith) contact-IsPayload in
      let chat = one-IsKept 3 (cc) (omega arith) chat-IsPayload in
      let message = one-IsKept 4 (cc) (omega arith) text_message-IsPayload in
      let album = one-IsKept 4 (cc) (omega arith) album_message-IsPayload in
      let share = one-IsKept 4 (cc) (omega arith) l in
      let reaction = one-IsKept 5 (cc) (omega arith) reaction-IsPayload in
      let peer = one-IsKept 6 (cc) (omega arith) (peer-IsPayload t identity h k) in
      let bad =
        one-IsKept 6 (cc) (omega arith)
          (peer-IsPayload (replicate 32 48) identity bad-IsDeviceText k) in
      let call = one-IsKept 7 (cc) (omega arith) call-IsPayload in
      let media = one-IsKept 8 (cc) (omega arith) media-IsPayload in
      let blob_first = one-IsKept 8 (cc) (omega arith) blob_first-IsPayload in
      let future = one-IsKept 9 (cc) (omega arith) future-IsPayload in
      (
        (man1, tt),
        (
          (man2, tt),
          (
            (man3, tt),
            (
              (man0, tt),
              (
                (man1, (contact, (chat, (peer, (call, tt))))),
                (
                  (man1, (bad, tt)),
                  (
                    (man1, (message, tt)),
                    (
                      (man1, (album, tt)),
                      (
                        (man1, (share, tt)),
                        (
                          (man1, (message, (reaction, tt))),
                          (
                            (man1, (reaction, (message, tt))),
                            (
                              (man1, (media, tt)),
                              (
                                (man2, (message, tt)),
                                (
                                  (man1, tt),
                                  ((man1, (future, tt)), ((man2, (blob_first, tt)), tt)),
                                ),
                              ),
                            ),
                          ),
                        ),
                      ),
                    ),
                  ),
                ),
              ),
            ),
          ),
        ),
      )

-- The vectors are made, have the ids of the streams, and are ready.
pub stream_vectors-IsReady :
    (t : List ℕ) (identity : Bytes)
    → IsDeviceText t
    → IsPayload 32 identity
    → (vs : List Vector) × (stream_vectors t identity ≡ ok vs)
      × (map (λ v. v.vid) vs
          ≡ 1 ∷ 2 ∷ 3 ∷ 4 ∷ 5 ∷ 6 ∷ 7 ∷ 8 ∷ 9 ∷ 10 ∷ 11 ∷ 12 ∷ 13 ∷ 14 ∷ 16 ∷ 25 ∷ [])
      × All IsReady vs
unfolding stream_vectors
stream_vectors-IsReady t identity h k =
    let (profile, made, sized) = profile_share-IsPayload in
    let vs = vectors_of t identity profile in
    (
      vs,
      rw made refl,
      refl,
      ready vs (kept t identity profile h k sized)
          (all_equal 16 vs (some (ok [])) (verdicts t identity profile))
          (others_than_23 t identity profile),
    )
