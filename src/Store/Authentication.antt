-- ===== src/Store/Authentication.antt =====
-- `normfs-store/src/header.rs`: `FileAuthentication`, the signatures in front of the header of a store file.
use normfs.Prelude.{
  ◌^◌, ◌≤◌, ◌<◌, ◌≡◌, ◌∙◌, ◌++◌, ◌==◌, if◌then◌else◌, ◌>>=◌, [], ℕ, refl, sym, false, List,
  append_assoc, arith, ltb, length, take, drop, length-append, Outcome, ok, err, le_bytes,
  length-le_bytes, drop-drop,
}
use normfs.UintN.Codec.{u64_at}
use normfs.UintN.Codec.Slices.{
  u64_at-append, u64_at-le_bytes, take-append_of_length, drop-append_of_length,
}
use normfs.Store.Header.{
  StoreHeaderError, slice_too_short, unsupported_version, unsupported_signature,
}

pub data SignatureType : Type 0 where
  ed25519 : SignatureType

pub data FileAuthVersion : Type 0 where
  auth_v0 : FileAuthVersion

unfoldable pub signature_try_from : ℕ → Outcome StoreHeaderError SignatureType
signature_try_from v = if v == 0 then ok ed25519 else err (unsupported_signature v)

unfoldable pub signature_code : SignatureType → ℕ
signature_code ed25519 = 0

unfoldable pub auth_version_try_from : ℕ → Outcome StoreHeaderError FileAuthVersion
auth_version_try_from v = if v == 0 then ok auth_v0 else err (unsupported_version v)

unfoldable pub auth_version_code : FileAuthVersion → ℕ
auth_version_code auth_v0 = 0

-- A signature is an array of 64 bytes.
pub record FileAuthentication : Type 0 where
  pub version : FileAuthVersion
  pub header_signature_type : SignatureType
  pub header_signature : List ℕ
  pub content_signature_type : SignatureType
  pub content_signature : List ℕ

unfoldable pub new : List ℕ → List ℕ → FileAuthentication
new header_signature content_signature = record {
  version = auth_v0;
  header_signature_type = ed25519;
  header_signature = header_signature;
  content_signature_type = ed25519;
  content_signature = content_signature;
}

unfoldable pub from_bytes : List ℕ → Outcome StoreHeaderError (FileAuthentication × ℕ)
from_bytes bytes = if ltb (length bytes) 152 then err slice_too_short else do
  version ← auth_version_try_from (u64_at bytes 0)
  header_signature_type ← signature_try_from (u64_at bytes 8)
  content_signature_type ← signature_try_from (u64_at bytes 80)
  ok (
    record {
      version = version;
      header_signature_type = header_signature_type;
      header_signature = take 64 (drop 16 bytes);
      content_signature_type = content_signature_type;
      content_signature = take 64 (drop 88 bytes);
    },
    152,
  )

abbrev pub size : ℕ
size = 152

-- The new buffer, and the size that is reported.
unfoldable pub write_to_bytes : FileAuthentication → List ℕ → List ℕ × ℕ
write_to_bytes a dest = (
  ((((dest ++ le_bytes 8 (auth_version_code a.version))
            ++ le_bytes 8 (signature_code a.header_signature_type))
          ++ a.header_signature)
        ++ le_bytes 8 (signature_code a.content_signature_type))
      ++ a.content_signature,
  152,
)

-- The same, to the right.
abbrev auth_bytes : FileAuthentication → List ℕ → List ℕ
auth_bytes a rest =
    le_bytes 8 (auth_version_code a.version)
    ++ (le_bytes 8 (signature_code a.header_signature_type)
        ++ (a.header_signature
            ++ (le_bytes 8 (signature_code a.content_signature_type)
                ++ (a.content_signature ++ rest))))

write_to_bytes-append :
    (a : FileAuthentication) (dest rest : List ℕ)
    → (write_to_bytes a dest).0 ++ rest ≡ dest ++ auth_bytes a rest
unfolding write_to_bytes
write_to_bytes-append a dest rest = simp append_assoc

-- A field is the one at the start of what stands there.
u64_at-drop : (i : ℕ) (bs rest : List ℕ) → drop i bs ≡ rest → u64_at bs i ≡ u64_at rest 0
unfolding u64_at
u64_at-drop i bs rest e = rw e refl

signature_round_trip :
    (t : SignatureType)
    → (signature_code t < 2 ^ 64) × (signature_try_from (signature_code t) ≡ ok t)
unfolding signature_code signature_try_from
signature_round_trip ed25519 = (omega arith, refl)

version_round_trip :
    (v : FileAuthVersion)
    → (auth_version_code v < 2 ^ 64) × (auth_version_try_from (auth_version_code v) ≡ ok v)
unfolding auth_version_code auth_version_try_from
version_round_trip auth_v0 = (omega arith, refl)

ltb-le : (n k : ℕ) → k ≤ n → ltb n k ≡ false
ltb-le n k h = ground arith

parse_lem :
    (a : FileAuthentication) (bytes : List ℕ)
    → 152 ≤ length bytes
    → auth_version_try_from (u64_at bytes 0) ≡ ok a.version
    → signature_try_from (u64_at bytes 8) ≡ ok a.header_signature_type
    → take 64 (drop 16 bytes) ≡ a.header_signature
    → signature_try_from (u64_at bytes 80) ≡ ok a.content_signature_type
    → take 64 (drop 88 bytes) ≡ a.content_signature
    → from_bytes bytes ≡ ok (a, size)
unfolding from_bytes
parse_lem a bytes enough v h s c s' =
    let long : ltb (length bytes) 152 ≡ false = ltb-le (length bytes) 152 enough in
    rw (long, v, h, c, s, s') refl

-- Two signatures of 64 bytes each are read back from the bytes that `write_to_bytes` wrote, with
-- their types and the version, whatever follows; `from_bytes` consumes the 152 bytes that `size` counts.
pub authentication_round_trip :
    (a : FileAuthentication) (rest : List ℕ)
    → length a.header_signature ≡ 64
    → length a.content_signature ≡ 64
    → from_bytes ((write_to_bytes a []).0 ++ rest) ≡ ok (a, size)
authentication_round_trip a rest lh lc =
    let version = le_bytes 8 (auth_version_code a.version) in
    let header_type = le_bytes 8 (signature_code a.header_signature_type) in
    let content_type = le_bytes 8 (signature_code a.content_signature_type) in
    let last = a.content_signature ++ rest in
    let content = content_type ++ last in
    let header = a.header_signature ++ content in
    let all = version ++ (header_type ++ header) in
    let nv = length-le_bytes 8 (auth_version_code a.version) in
    let nh = length-le_bytes 8 (signature_code a.header_signature_type) in
    let nc = length-le_bytes 8 (signature_code a.content_signature_type) in
    let at8 : drop 8 all ≡ header_type ++ header =
      drop-append_of_length version (header_type ++ header) 8 (sym nv) in
    let at16 : drop 16 all ≡ header =
      rw (drop-drop 8 8 all, at8) (drop-append_of_length header_type header 8 (sym nh)) in
    let at80 : drop 80 all ≡ content =
      rw (drop-drop 16 64 all, at16)
        (drop-append_of_length a.header_signature content 64 (sym lh)) in
    let at88 : drop 88 all ≡ last =
      rw (drop-drop 80 8 all, at80) (drop-append_of_length content_type last 8 (sym nc)) in
    let v = version_round_trip a.version in
    let h = signature_round_trip a.header_signature_type in
    let c = signature_round_trip a.content_signature_type in
    let total : 152 ≤ length all = omega (
      arith,
      nv,
      nh,
      nc,
      lh,
      lc,
      length-append version (header_type ++ header),
      length-append header_type header,
      length-append a.header_signature content,
      length-append content_type last,
      length-append a.content_signature rest,
    ) in
    let first : u64_at all 0 ≡ auth_version_code a.version =
      u64_at-le_bytes (auth_version_code a.version) (header_type ++ header) v.0 in
    let second : u64_at all 8 ≡ signature_code a.header_signature_type =
      u64_at-append version (header_type ++ header) 8 (sym nv)
      ∙ u64_at-le_bytes (signature_code a.header_signature_type) header h.0 in
    let third : u64_at all 80 ≡ signature_code a.content_signature_type =
      u64_at-drop 80 all content at80
      ∙ u64_at-le_bytes (signature_code a.content_signature_type) last c.0 in
    let taken : take 64 (drop 16 all) ≡ a.header_signature =
      rw at16 (take-append_of_length a.header_signature content 64 (sym lh)) in
    let taken' : take 64 (drop 88 all) ≡ a.content_signature =
      rw at88 (take-append_of_length a.content_signature rest 64 (sym lc)) in
    rw (write_to_bytes-append a [] rest)
      (parse_lem a all total (rw first v.1) (rw second h.1) taken (rw third c.1) taken')
