-- ===== src/Lib.antt =====
-- construct-protos: the rules behind the conformance vectors.
--
-- The repository fixes bytes and decisions that several clients must agree on. Each script under
-- conformance/ states one rule and checks a JSON file of vectors against it; the script
-- scripts/gen_history_snapshot_vectors.py writes the vectors of one of them. The rules are Python
-- functions on bytes, and these modules model them.
--
-- Parts and files:
-- Prelude: shared names, lists, Boolean tests; Prelude.Result is a call that returned or raised.
-- Bytes: bytes as lists of numbers below 256, struct.pack and unpack, bytes.hex, the bit
--   operations that the scripts use.
-- Proto: the protobuf encoders `_varint`, `_key`, `p_bytes` and the rest of the generator, and
--   `field` and `varint_field` of conformance/check_contact_card.py.
-- Frame: `frame`, `read` and `chunks` of conformance/check_knst_frame.py, and in Frame.Cases
--   `build`. The bytes are a list, a slice is `slice`, and a refusal (`None`) is `none`.
--   Frame.Outcome sets the three ends of `chunks` side by side: frames, a refusal, an exception.
-- History: conformance/check_history_snapshot.py, the checker, and its generator. History.Stream
--   has the stream's writer and readers, History.Media the field order of a MediaBlob,
--   History.Phase the order of records, History.Sealed the sealed chunks of a file, History.Keys
--   the derivation of the channel key, with HKDF-Expand of RFC 5869 written out in
--   History.Keys.Expand. History.Stream.Agreed sets the three readers of a stream side by side,
--   History.Sealed.Outcome the two ends of sealing, and History.Ends takes the loops on fuel together.
--   History.Records has the generator's payloads and the streams of its vectors, History.Hello the
--   frames in front of a transfer and what their signatures cover, History.Rows what the checker
--   finds wrong in a row, History.Rows.Made the generator's rows that are no streams and hold no
--   keyed frame.
--   History.Rows.Whole is the checker's `main` around the loop: proto text, ids, constants, rows;
--   History.Rows.Right and History.Rows.Content say what a row of each kind must be.
--   History.Written is the generator's `main`: all rows of the file, in their order.
-- Route: the helpers and `build` of conformance/check_transport_route.py, and `main`'s test of the names.
-- Markers: `later` and the rules of `check` of conformance/check_read_markers.py; Markers.Cases has
--   `build` and `check`, Markers.Folding the boundary behind a sequence of markers, Markers.Converged
--   two such sequences side by side.
-- Trust: the byte strings of conformance/check_server_trust.py, and in Trust.Main the tests of
--   `main`; its times are not negative here. Trust.Signed takes the signed bytes apart.
-- Profile: `check_apply` of conformance/check_profile_share.py, and in Profile.Cases `build`.
-- ContentTypes: `main` of conformance/check_content_types.py. A dict is an association list; the
--   pairs that the regular expressions find in the proto are an argument.
-- Certificate: conformance/check_device_certificate.py.
-- Sticker: `unescape` and the cases of conformance/check_sticker_ref.py, Sticker.Reference the
--   rest of its `main`, with Proto.Decode as the decoder of UTF-8; Sticker.Pack is
--   conformance/check_sticker_pack.py, with the texts for protoc.
-- Invite: conformance/check_invite.py, with the signature and the public key as parameters; str.lower
--   is that of ASCII text.
-- Card: the cases of conformance/check_contact_card.py; Card.Reader is a reader of cards written from
--   the rule that the script states.
--
-- How the code is read: an index `i` into the data is the rest of the data, data[i:]. A `while` that
-- is no recursion on a list takes fuel, and the end of the fuel is a value of its own. The fuel is
-- the number of bytes, or one more, since each round takes some; for the key derivation it is the
-- length asked for, since each block adds 32 bytes. An integer division by a power of two is a
-- shift, a remainder a mask. A text is the list of its code points, none of them a lone surrogate, so
-- that its encoding in UTF-8 does not fail.
--
-- Parameters: AEAD encryption, HMAC-SHA-256 and the helper's signature, of which only the lengths of
-- the results are assumed and that they are bytes, and SHA-256. The cipher takes any key: the
-- ValueError of the real one for a key that is not 32 bytes is not modelled. What protoc makes of a text is a
-- parameter where a script checks it. Not modelled: reading and writing the JSON files, the command
-- line, the regular expressions over a proto, protoc, the signatures and the Rust helper that makes
-- them; and of the generator the names, the notes and the other fields of a row that the checker does
-- not read.
pub mod Prelude
pub mod Bytes
pub mod Proto
pub mod Frame
pub mod History
pub mod Route
pub mod Markers
pub mod Trust
pub mod Profile
pub mod ContentTypes
pub mod Certificate
pub mod Sticker
pub mod Invite
pub mod Card
