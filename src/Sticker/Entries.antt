-- ===== src/Sticker/Entries.antt =====
-- What a pack that passes says of its stickers, next to the rules for a reference to one.
use construct_protos.Prelude.{
  ℕ, ◌≡◌, ◌∙◌, refl, sym, ap, List, [], ◌∷◌, true, ◌&&◌, leb, ◌==◌, length, All, and_inv, arith,
}
use construct_protos.Prelude.Checks.{checks-nil, check-nil, append-nil_iff}
use construct_protos.Prelude.Result.{ok, Raises, bind_ok, ok_injective}
use construct_protos.Bytes.{Bytes, IsByte}
use construct_protos.Bytes.Struct.{bytes_eq→eq}
use construct_protos.Bytes.Hex.{hex, fromhex, fromhex-hex}
use construct_protos.Proto.{utf8}
use construct_protos.Sticker.{Rules, computed}
use construct_protos.Sticker.Pack.{
  Entry, Document, entry_flaws, entries_flaws, canon_tp, full_tp, flaws,
}

-- The rules of the vectors of references.
abbrev pub stated_rules : Rules
stated_rules = record { pack_id_bytes = 32; emoji_min_bytes = 1; emoji_max_bytes = 32 }

-- The size and the emoji of an entry that has no flaw.
abbrev pub IsFit : Entry → Type 0
IsFit e =
    (e.width ≡ 512)
    × (e.height ≡ 512)
    × ((leb 1 (length (utf8 e.emoji)) && leb (length (utf8 e.emoji)) 32) ≡ true)

entry-IsFit : (e : Entry) (digest : Bytes) → entry_flaws e digest ≡ [] → IsFit e
unfolding entry_flaws
entry-IsFit e digest h =
    let (a, (b, (c, (d, t)))) = (checks-nil _).0 h in
    let (wide, high) = and_inv (e.width == 512) (e.height == 512) b in
    (ground (arith, wide), ground (arith, high), d)

entries-IsFit : (es : List Entry) → entries_flaws es ≡ ok [] → All IsFit es
unfolding entries_flaws
entries-IsFit [] h = tt
entries-IsFit (e ∷ es) h =
    let (digest, a, h₁) = bind_ok (fromhex e.sha256) _ h in
    let (rest, b, h₂) = bind_ok (entries_flaws es) _ h₁ in
    let (first, others) = (append-nil_iff (entry_flaws e digest) rest).0 (ok_injective h₂) in
    (entry-IsFit e digest first, entries-IsFit es (b ∙ ap ok others))

reference_ok :
    (e : Entry) (pack_id_hex : List ℕ) (pack_id : Bytes)
    → fromhex pack_id_hex ≡ ok pack_id
    → length pack_id ≡ 32
    → IsFit e
    → computed stated_rules pack_id_hex e.emoji ≡ ok true
unfolding computed
reference_ok e pack_id_hex pack_id read sized (w, h, fit) = rw (read, sized, fit) refl

each_reference :
    (es : List Entry) (pack_id_hex : List ℕ) (pack_id : Bytes)
    → fromhex pack_id_hex ≡ ok pack_id
    → length pack_id ≡ 32
    → All IsFit es
    → All (λ e. computed stated_rules pack_id_hex e.emoji ≡ ok true) es
each_reference [] pack_id_hex pack_id read sized h = tt
each_reference (e ∷ es) pack_id_hex pack_id read sized h = (
  reference_ok e pack_id_hex pack_id read sized h.0,
  each_reference es pack_id_hex pack_id read sized h.1,
)

-- A pack in which the script finds nothing wrong, with a digest of 32 bytes: the reference rules accept a
-- reference to each of its stickers, by the pack's id and the sticker's emoji.
pub references_accepted :
    (encode : List ℕ → Raises Bytes) (sha256 : Bytes → Bytes) (doc : Document)
    → ((m : Bytes) → (length (sha256 m) ≡ 32) × All IsByte (sha256 m))
    → flaws encode sha256 doc ≡ ok []
    → All (λ e. computed stated_rules doc.pack_id_hex e.emoji ≡ ok true) doc.manifest.stickers
unfolding flaws
references_accepted encode sha256 doc digest h =
    let (canon, a, h₁) = bind_ok (canon_tp doc.manifest) _ h in
    let (canonical, b, h₂) = bind_ok (encode canon) _ h₁ in
    let (sig, c, h₃) = bind_ok (fromhex doc.signature_hex) _ h₂ in
    let (pack_id, d, h₄) = bind_ok (fromhex doc.pack_id_hex) _ h₃ in
    let (full, f, h₅) = bind_ok (encode (full_tp pack_id sig canon)) _ h₄ in
    let (entries, g, h₆) = bind_ok (entries_flaws doc.manifest.stickers) _ h₅ in
    let (first, rest) = (append-nil_iff _ _).0 (ok_injective h₆) in
    let (second, rest') = (append-nil_iff _ _).0 rest in
    let (third, fourth) = (append-nil_iff _ _).0 rest' in
    let id : hex (sha256 canonical) ≡ doc.pack_id_hex =
      bytes_eq→eq _ _ ((check-nil _ _).0 second) in
    each_reference doc.manifest.stickers doc.pack_id_hex (sha256 canonical)
      (ap fromhex (sym id) ∙ fromhex-hex (sha256 canonical) (digest canonical).1)
      (digest canonical).0 (entries-IsFit doc.manifest.stickers (g ∙ ap ok fourth))
