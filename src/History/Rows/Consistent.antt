-- ===== src/History/Rows/Consistent.antt =====
-- When `main` of check_history_snapshot.py finds nothing wrong.
use construct_protos.Prelude.{
  ℕ, ◌≡◌, ◌↔◌, ◌≤◌, refl, List, [], ◌∷◌, Bool, true, false, ◌&&◌, Option, none, some, All, leb,
  and_inv, arith,
}
use construct_protos.Prelude.Result.{ok}
use construct_protos.Prelude.Checks.{All-map_iff, not-true_iff}
use construct_protos.Bytes.{codes}
use construct_protos.History.Keys.{Hmac}
use construct_protos.History.Rows.{Row}
use construct_protos.History.Rows.Occurs.{Occurs, contains_iff, is_number_iff}
use construct_protos.History.Rows.Right.{IsRight, check_row_iff}
use construct_protos.History.Rows.Whole.{
  Constants, rows_from, find, is_found, is_required, proto_tests, constant_tests, v23_of, has_row,
  errors,
}
use construct_protos.History.Rows.Silent.{front_flaws-nil, errors-nil}

-- The numbers of V1 to V28.
abbrev pub all_ids : List ℕ
all_ids =
    1 ∷ 2 ∷ 3 ∷ 4 ∷ 5 ∷ 6 ∷ 7 ∷ 8 ∷ 9 ∷ 10 ∷ 11 ∷ 12 ∷ 13 ∷ 14 ∷ 15 ∷ 16 ∷ 17 ∷ 18 ∷ 19 ∷ 20 ∷ 21
    ∷ 22 ∷ 23 ∷ 24 ∷ 25 ∷ 26 ∷ 27 ∷ 28 ∷ []

-- The proto, the ids and the constants are in order, and every row is right.
pub record IsConsistent (hmac : Hmac) (proto : List ℕ) (has_enum : Bool) (consts : Constants)
    (rows : List Row) : Type 0 where
  pub one_body : Occurs (codes "oneof body") proto
  pub no_enum : has_enum ≡ false
  pub content_case : Occurs (codes "message_content") proto
  pub album_case : Occurs (codes "media_album") proto
  pub share_case : Occurs (codes "profile_share") proto
  pub present : All (λ n. (r : Row) × (find n rows ≡ some r)) all_ids
  pub known : All (λ r. (1 ≤ r.vid) × (r.vid ≤ 28)) rows
  pub opening : consts.ctt1_v2_opening_len ≡ some 7055
  pub reply : consts.ctt1_v2_reply_len ≡ some 5421
  pub header : consts.cthf_header_len ≡ some 7062
  pub passed : All (IsRight hmac (v23_of (find 23 rows)) (has_row rows)) rows

is_required_iff : (n : ℕ) → (is_required n ≡ true) ↔ ((1 ≤ n) × (n ≤ 28))
is_required_iff n = (
  λ e. let (a, b) = and_inv (leb 1 n) (leb n 28) e in (ground (arith, a), ground (arith, b)),
  λ (a, b). ground (arith, a, b),
)

is_found_iff : (o : Option Row) → (is_found o ≡ true) ↔ ((r : Row) × (o ≡ some r))
is_found_iff none = (λ e. cc, λ (r, e). cc)
is_found_iff (some r) = (λ e. (r, refl), λ e. refl)

and_true : {a b : Bool} → a ≡ true → b ≡ true → (a && b) ≡ true
and_true p q = rw (p, q) refl

proto_tests-Occurs :
    (proto : List ℕ) (has_enum : Bool)
    → All (λ c. c.0 ≡ true) (proto_tests proto has_enum) ↔ (
        Occurs (codes "oneof body") proto
        × (has_enum ≡ false)
        × Occurs (codes "message_content") proto
        × Occurs (codes "media_album") proto
        × Occurs (codes "profile_share") proto)
proto_tests-Occurs proto has_enum =
    let text = λ (t : List ℕ). contains_iff t proto in
    (
      λ (body, (enum, (cases, _))).
          let (content, more) = and_inv _ _ cases in
          let (album, share) = and_inv _ _ more in
          (
            (text (codes "oneof body")).0 body,
            (not-true_iff has_enum).0 enum,
            (text (codes "message_content")).0 content,
            (text (codes "media_album")).0 album,
            (text (codes "profile_share")).0 share,
          ),
      λ (body, enum, content, album, share). (
        (text (codes "oneof body")).1 body,
        (
          (not-true_iff has_enum).1 enum,
          (
            and_true ((text (codes "message_content")).1 content) (
                and_true ((text (codes "media_album")).1 album)
                  ((text (codes "profile_share")).1 share)),
            tt,
          ),
        ),
      ),
    )

constant_tests_iff :
    (consts : Constants)
    → All (λ c. c.0 ≡ true) (constant_tests consts) ↔ (
        (consts.ctt1_v2_opening_len ≡ some 7055)
        × (consts.ctt1_v2_reply_len ≡ some 5421)
        × (consts.cthf_header_len ≡ some 7062))
constant_tests_iff consts =
    let opening = is_number_iff consts.ctt1_v2_opening_len 7055 in
    let reply = is_number_iff consts.ctt1_v2_reply_len 5421 in
    let header = is_number_iff consts.cthf_header_len 7062 in
    (
      λ (a, (b, (c, _))). (opening.0 a, reply.0 b, header.0 c),
      λ (a, b, c). (opening.1 a, (reply.1 b, (header.1 c, tt))),
    )

-- `main` finds nothing wrong, and meets no exception, exactly if the texts "oneof body",
-- "message_content", "media_album" and "profile_share" occur in the proto, the search for the enum
-- of kinds finds none, every id from V1 to V28 has a row, no other id has one, the three lengths are
-- 7055, 5421 and 7062, and every row is right. A row is right if its payload, if any, is hexadecimal
-- with no CTM1 in it and of the length stated, and if it is what its kind must be: a header over the
-- cap, a frame with its length, prefix and expectation, a file with the header of V23 and its chunks
-- or one derived from an id that has a row, the fields of a preimage, the two keys derived from the
-- row's secret, or a stream in which the code's own readers and rules find nothing wrong.
pub errors-nil_iff_IsConsistent :
    (hmac : Hmac) (proto : List ℕ) (has_enum : Bool) (consts : Constants) (vectors : List Row)
    → (errors hmac proto has_enum consts vectors ≡ some (ok []))
      ↔ IsConsistent hmac proto has_enum consts (rows_from [] vectors)
errors-nil_iff_IsConsistent hmac proto has_enum consts vectors =
    let rows = rows_from [] vectors in
    let whole = errors-nil hmac proto has_enum consts vectors in
    let front = front_flaws-nil proto has_enum consts rows in
    let texts = proto_tests-Occurs proto has_enum in
    let ids = All-map_iff (λ n. is_found_iff (find n rows)) all_ids in
    let others = All-map_iff (λ (r : Row). is_required_iff r.vid) rows in
    let lengths = constant_tests_iff consts in
    let right = All-map_iff (check_row_iff hmac (v23_of (find 23 rows)) (has_row rows)) rows in
    (
      λ e.
          let (p, q) = whole.0 e in
          let (t, m, x, c) = front.0 p in
          let (body, enum, content, album, share) = texts.0 t in
          let (opening, reply, header) = lengths.0 c in
          record {
            one_body = body;
            no_enum = enum;
            content_case = content;
            album_case = album;
            share_case = share;
            present = ids.0 m;
            known = others.0 x;
            opening = opening;
            reply = reply;
            header = header;
            passed = right.0 q;
          },
      λ h. whole.1 (
        front.1 (
          texts.1 (h.one_body, h.no_enum, h.content_case, h.album_case, h.share_case),
          ids.1 h.present,
          others.1 h.known,
          lengths.1 (h.opening, h.reply, h.header),
        ),
        right.1 h.passed,
      ),
    )
