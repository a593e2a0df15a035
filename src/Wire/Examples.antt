-- ===== src/Wire/Examples.antt =====
-- Concrete runs of the wire codec, under a provider whose tag is a checksum of key and message.
mod Bundles
mod Channels
use crowdy_cpp.Base.{
  ℕ, suc, ◌+◌, ◌%◌, ◌≡◌, ◌≢◌, ◌≤◌, ◌<◌, ◌↔◌, ◌⊎◌, inl, inr, refl, sym, ap, ap₂, ◌∙◌, Bool, true,
  false, ◌&&◌, Option, none, some, List, [], ◌∷◌, ◌++◌, length, take, drop, get_or, replicate, ◌==◌,
  Bool-cases, arith,
}
use crowdy_cpp.Base.Int.{ℤ, pos, negsuc}
use crowdy_cpp.Base.Buffers.{slice, write_at}
use crowdy_cpp.Core.Result.{Errc, value, error}
use crowdy_cpp.Core.Le.{Bytes, u16_bytes}
use crowdy_cpp.Core.Crypto.{ICrypto, IMac, IsProvider, concat}
use crowdy_cpp.Wire.Protocol.{is_long_spatial_layout}
use crowdy_cpp.Wire.Hmac.{Token64, spatial_hmac}
use crowdy_cpp.Wire.Spatial.{
  ChunkCoord, LongSpatialParams, LongSpatialView, IsParams, encode_long_spatial, parse_long_spatial,
  verify_long_spatial, long_spatial_size, view_of, auth_of, tail_size,
}
use crowdy_cpp.Wire.Spatial.Encode.{signed_part, long_spatial_frame, encode_long_spatial-frame}
use crowdy_cpp.Wire.Spatial.Accepted.{parse_long_spatial-IsMessage}
use crowdy_cpp.Wire.Spatial.Sections.{IsMessage}
use crowdy_cpp.Wire.Spatial.Parse.{view_of_params, parse-encode_long_spatial}
use crowdy_cpp.Wire.Spatial.Verify.{verify_long_spatial_iff, verify-encode_long_spatial}

abbrev pub total : Bytes → ℕ
total [] = 0
total (b ∷ bs) = b + total bs

abbrev pub toy_tag : Bytes → Bytes → Bytes
toy_tag key message = replicate 32 ((total key + total message) % 256)

abbrev pub toy_equal : Bytes → Bytes → Bool
toy_equal [] [] = true
toy_equal [] (b ∷ bs) = false
toy_equal (a ∷ xs) [] = false
toy_equal (a ∷ xs) (b ∷ bs) = (a == b) && toy_equal xs bs

toy_equal_refl : (a : Bytes) → toy_equal a a ≡ true
toy_equal_refl [] = refl
toy_equal_refl (a ∷ xs) = ground (arith, toy_equal_refl xs)

toy_equal_sound : (a b : Bytes) → toy_equal a b ≡ true → a ≡ b
toy_equal_sound [] [] e = refl
toy_equal_sound [] (b ∷ bs) e = absurd (cc e)
toy_equal_sound (a ∷ xs) [] e = absurd (cc e)
toy_equal_sound (a ∷ xs) (b ∷ bs) e = elim (Bool-cases (a == b)) [
  | inl same ↦ ap₂ ◌∷◌ (ground (arith, same)) (toy_equal_sound xs bs (rw same at e))
  | inr other ↦ absurd (cc (rw other at e))
]

-- A provider that signs with a checksum.
abbrev pub toy : ICrypto
toy = record {
  availability = Errc.ok;
  hmac_sha256 = λ key message. some (toy_tag key message);
  constant_time_equals = toy_equal;
  random_bytes = λ len. some (replicate len 7);
}

pub toy-IsProvider : IsProvider toy
toy-IsProvider = record {
  tag_size = λ key message tag e. ap length (sym (some_inj e));
  tags_equal = λ a b ha hb. (toy_equal_sound a b, λ e. ap (toy_equal a) (sym e) ∙ toy_equal_refl a);
}
  where
    some_inj : {a b : Bytes} → some a ≡ some b → a ≡ b
    some_inj e = cc

-- The same provider with a key of its own.
abbrev toy_mac : IMac
toy_mac = record { compute = λ parts. some (toy_tag (replicate 64 5) (concat parts)) }

abbrev pub token : Token64
token = replicate 64 5

abbrev message : LongSpatialParams
message = record {
  type = 134;
  app_id = pos 9;
  chunk = record { x = negsuc 2; y = pos 0; z = pos 70000 };
  distance = 8;
  decay = 1;
  uuid = replicate 32 97;
  payload = 1 ∷ 2 ∷ 3 ∷ [];
  game_token_id = pos 77;
  sequence = 200;
}

message-IsParams : IsParams message
message-IsParams = record {
  app_id = ground arith;
  chunk_x = ground arith;
  chunk_y = ground arith;
  chunk_z = ground arith;
  uuid = refl;
  game_token_id = ground arith;
}

abbrev buffer : Bytes
buffer = replicate 120 0

abbrev message_tag : Bytes
message_tag = toy_tag token (signed_part message ++ token)

message_signed : spatial_hmac toy (signed_part message) token none ≡ some message_tag
unfolding spatial_hmac
message_signed = refl

message_frame :
    encode_long_spatial toy message token buffer none
    ≡ (value 112, long_spatial_frame message message_tag ++ drop 112 buffer)
unfolding is_long_spatial_layout
message_frame =
    encode_long_spatial-frame toy message token buffer none message_tag refl refl (omega arith)
      (omega arith) refl message_signed refl

message_encoded : (encode_long_spatial toy message token buffer none).0 ≡ value 112
message_encoded = ap (λ r. r.0) message_frame

message_parses :
    parse_long_spatial (take 112 (encode_long_spatial toy message token buffer none).1)
    ≡ value (view_of_params message)
message_parses =
    parse-encode_long_spatial toy message token buffer none toy-IsProvider tt message-IsParams
      message_encoded

message_verifies :
    verify_long_spatial toy
      (take 112 (encode_long_spatial toy message token buffer none).1)
      token
      (some toy_mac)
    ≡ Errc.ok
message_verifies =
    verify-encode_long_spatial toy message token buffer none (some toy_mac) toy-IsProvider tt
      (λ parts. refl) refl message_encoded

message_frame_example :
    encode_long_spatial toy message token buffer none
    ≡ (value 112, long_spatial_frame message message_tag ++ drop 112 buffer)
unfolding is_long_spatial_layout
message_frame_example =
    encode_long_spatial-frame toy message token buffer none message_tag refl refl (omega arith)
      (omega arith) refl message_signed refl

-- A datagram of 120 bytes, each 1: its HMAC field does not hold the checksum.
abbrev forged : Bytes
forged = replicate 120 1

forged_signed :
    spatial_hmac toy (take 79 forged) token none ≡ some (toy_tag token (take 79 forged ++ token))
unfolding spatial_hmac
forged_signed = refl

forged_rejected :
    ((verify_long_spatial toy forged token none ≡ Errc.ok)
      ↔ (slice forged 79 32 ≡ toy_tag token (take 79 forged ++ token)))
    × ((verify_long_spatial toy forged token none ≡ Errc.ok)
        ⊎ (verify_long_spatial toy forged token none ≡ Errc.hmac_mismatch))
forged_rejected =
    verify_long_spatial_iff toy forged token none (toy_tag token (take 79 forged ++ token))
      toy-IsProvider tt refl (λ e. cc e) (omega arith) forged_signed

abbrev unsigned_datagram : Bytes
unsigned_datagram = 134 ∷ replicate 80 0

unsigned_view : LongSpatialView
unsigned_view = view_of unsigned_datagram 81 false

accepted_example :
    (parse_long_spatial unsigned_datagram ≡ value unsigned_view)
    ↔ IsMessage unsigned_datagram unsigned_view
accepted_example = parse_long_spatial-IsMessage unsigned_datagram unsigned_view
