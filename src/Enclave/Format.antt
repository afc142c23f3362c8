-- ===== src/Enclave/Format.antt =====
-- The file format of src/enclave.rs.
use lastpass_ssh_agent.Prelude.{
  All-append_right, ℕ, ◌/◌, ◌%◌, ◌^◌, ◌≤◌, ◌<◌, ◌≡◌, refl, sym, ap, ◌∙◌, ◌↔◌, inl, inr, true, false,
  Option, none, some, [], ◌∷◌, ◌++◌, append_assoc, append-nil, arith, ltb, leb, ltb→ge, Bool-cases,
  length, take, drop, length-append, take-append, drop-append, length-take, Bytes, Text, some-eq,
  Result, ok, err, and_then-eq-ok, take_all, All-take,
}
use lastpass_ssh_agent.Enclave.{
  kept_or_none, StoreError, Stored, magic, max_blob, max_cipher, limit, to_be_bytes, put_part,
  encode, take_part, or_malformed, ended_with, decode, read_in, load,
}
use lastpass_ssh_agent.Signing.Wire
use lastpass_ssh_agent.Signing.Format.{AreBytes, u32_be, wire_string}
use lastpass_ssh_agent.Signing.Reads.{string-inv}
use lastpass_ssh_agent.Text.Search.{strip_prefix}
use lastpass_ssh_agent.Text.Search.Laws.{strip_prefix-eq-some, strip_prefix-append}

ok-eq : {A : Type 0} {a b : A} → ◌≡◌ {A = Result StoreError A} (ok a) (ok b) → a ≡ b
ok-eq h = ground arith

-- A part as the file has it.
abbrev part : Bytes → Bytes
part v = to_be_bytes (length v) ++ v

put_part-eq-ok :
    (v out bytes : Bytes) (max : ℕ)
    → put_part v max out ≡ ok bytes
    → (length v ≤ max) × (bytes ≡ out ++ part v)
unfolding put_part
put_part-eq-ok v out bytes max h = elim (Bool-cases (ltb max (length v))) [
  | inl over ↦ absurd (cc (rw over at h))
  | inr fits ↦ let e : out ++ part v ≡ bytes = ground arith in (ltb→ge max (length v) fits, sym e)
]

put_part-fits : (v out : Bytes) (max : ℕ) → length v ≤ max → put_part v max out ≡ ok (out ++ part v)
unfolding put_part
put_part-fits v out max h = let fits : ltb max (length v) ≡ false = ground arith in rw fits

take_part-part :
    (v rest : Bytes) (max : ℕ)
    → length v ≤ max
    → max < 2 ^ 32
    → take_part (part v ++ rest) max ≡ ok (v, rest)
unfolding take_part to_be_bytes
take_part-part v rest max h m =
    let n = length v in
    let e : Wire.be32 (n / 2 ^ 24) (n / 2 ^ 16 % 256) (n / 2 ^ 8 % 256) (n % 256) ≡ n =
      omega arith in
    let fits : ltb max n ≡ false = ground arith in
    let room : leb n (length (v ++ rest)) ≡ true = ground (arith, length-append v rest) in
    rw (e, fits, room, take-append v rest, drop-append v rest)

-- A part that is read is a wire string within the bound.
take_part-string :
    (s v rest : Bytes) (max : ℕ)
    → take_part s max ≡ ok (v, rest)
    → (Wire.string s ≡ some (v, rest)) × (length v ≤ max)
unfolding take_part Wire.string
take_part-string [] v rest max h = cc
take_part-string (a ∷ []) v rest max h = cc
take_part-string (a ∷ b ∷ []) v rest max h = cc
take_part-string (a ∷ b ∷ c ∷ []) v rest max h = cc
take_part-string (a ∷ b ∷ c ∷ d ∷ s) v rest max h =
    elim (Bool-cases (ltb max (Wire.be32 a b c d))) [
      | inl over ↦ absurd (cc (rw over at h))
      | inr fits ↦ elim (Bool-cases (leb (Wire.be32 a b c d) (length s))) [
        | inr short ↦ absurd (cc (rw (fits, short) at h))
        | inl room ↦
            let n = Wire.be32 a b c d in
            let e : ◌≡◌ {A = Bytes × Bytes} (take n s, drop n s) (v, rest) =
              ok-eq (rw (fits, room) at h) in
            (
              rw room (ap some e),
              omega (
                arith,
                ltb→ge max n fits,
                length-take n s,
                ap (λ (w : Bytes × Bytes). length w.0) e,
              ),
            )
      ]
    ]

same : (u t : Bytes) → wire_string u ++ t ≡ part u ++ t
unfolding wire_string u32_be to_be_bytes
same u t = refl

take_part-eq-ok :
    (s v rest : Bytes) (max : ℕ)
    → AreBytes s
    → take_part s max ≡ ok (v, rest)
    → (s ≡ part v ++ rest) × AreBytes rest × (length v ≤ max)
take_part-eq-ok s v rest max b h =
    let (e, few) = take_part-string s v rest max h in
    let (f, more) = string-inv s v rest b e in (f ∙ same v rest, more, few)

-- The whole file.
abbrev file_of : Stored → Bytes
file_of stored = magic ++ (part stored.blob ++ part stored.cipher)

encode-eq-ok :
    (stored : Stored) (bytes : Bytes)
    → encode stored ≡ ok bytes
    → (length stored.blob ≤ max_blob)
      × (length stored.cipher ≤ max_cipher)
      × (bytes ≡ file_of stored)
unfolding encode
encode-eq-ok stored bytes h =
    let (out, e, k) = and_then-eq-ok (put_part stored.blob max_blob magic) _ h in
    let (few, f) = put_part-eq-ok stored.blob magic out max_blob e in
    let (few', g) = put_part-eq-ok stored.cipher out bytes max_cipher k in
    (
      few,
      few',
      g
          ∙ ap (λ l. l ++ part stored.cipher) f
          ∙ append_assoc magic (part stored.blob) (part stored.cipher),
    )

encode-fits :
    (stored : Stored)
    → length stored.blob ≤ max_blob
    → length stored.cipher ≤ max_cipher
    → encode stored ≡ ok (file_of stored)
unfolding encode
encode-fits stored h k =
    rw
      (
        put_part-fits stored.blob magic max_blob h,
        put_part-fits stored.cipher (magic ++ part stored.blob) max_cipher k,
      )
      (ap ok (append_assoc magic (part stored.blob) (part stored.cipher)))

take_part_last :
    (v : Bytes) (max : ℕ) → length v ≤ max → max < 2 ^ 32 → take_part (part v) max ≡ ok (v, [])
take_part_last v max h m =
    ap (λ l. take_part l max) (sym (append-nil (part v))) ∙ take_part-part v [] max h m

decode-encode :
    (stored : Stored) (bytes : Bytes) → encode stored ≡ ok bytes → decode bytes ≡ ok stored
unfolding decode
decode-encode stored bytes h =
    let (few, few', e) = encode-eq-ok stored bytes h in
    rw (
      e,
      strip_prefix-append magic (part stored.blob ++ part stored.cipher),
      take_part-part stored.blob (part stored.cipher) max_blob few (omega arith),
      take_part_last stored.cipher max_cipher few' (omega arith),
    )

or_malformed-eq-ok :
    (why : Text) (o : Option Bytes) (rest : Bytes) → or_malformed why o ≡ ok rest → o ≡ some rest
unfolding or_malformed
or_malformed-eq-ok why none rest h = cc
or_malformed-eq-ok why (some r) rest h = ground arith

ended_with-eq-ok :
    (s stored : Stored) (rest : Bytes) → ended_with s rest ≡ ok stored → (rest ≡ []) × (s ≡ stored)
unfolding ended_with
ended_with-eq-ok s stored [] h = (refl, ok-eq h)
ended_with-eq-ok s stored (b ∷ rest) h = cc

-- The parts of a file, once they are read.
refile :
    (bytes r r1 r2 : Bytes) (stored : Stored)
    → bytes ≡ magic ++ r
    → r ≡ part stored.blob ++ r1
    → r1 ≡ part stored.cipher ++ r2
    → r2 ≡ []
    → file_of stored ≡ bytes
refile bytes r r1 r2 stored e f g h = rw (e, f, g, h, append-nil)

encode-decode :
    (bytes : Bytes) (stored : Stored)
    → AreBytes bytes
    → decode bytes ≡ ok stored
    → encode stored ≡ ok bytes
unfolding decode
encode-decode bytes stored b h =
    let (r, e, h') = and_then-eq-ok (or_malformed _ (strip_prefix magic bytes)) _ h in
    let whole = strip_prefix-eq-some magic bytes r (or_malformed-eq-ok _ _ r e) in
    let b1 : AreBytes r = All-append_right _ magic r (rw whole at b) in
    let ((blob, r1), f, h'') = and_then-eq-ok (take_part r max_blob) _ h' in
    let (p, b2, few) = take_part-eq-ok r blob r1 max_blob b1 f in
    let ((cipher, r2), g, k) = and_then-eq-ok (take_part r1 max_cipher) _ h'' in
    let (q, b3, few') = take_part-eq-ok r1 cipher r2 max_cipher b2 g in
    let (none_left, it) = ended_with-eq-ok (record { blob = blob; cipher = cipher }) stored r2 k in
    let read : Stored = record { blob = blob; cipher = cipher } in
    rw (← it) (encode-fits read few few' ∙ ap ok (refile bytes r r1 r2 read whole p q none_left))

decode_iff :
    (bytes : Bytes) (stored : Stored)
    → AreBytes bytes
    → (decode bytes ≡ ok stored) ↔ (encode stored ≡ ok bytes)
decode_iff bytes stored b = (encode-decode bytes stored b, decode-encode stored bytes)

length-encode : (stored : Stored) (bytes : Bytes) → encode stored ≡ ok bytes → length bytes < limit
unfolding to_be_bytes
length-encode stored bytes h =
    let (few, few', e) = encode-eq-ok stored bytes h in
    omega (arith, ap length e, length-append (part stored.blob) (part stored.cipher))

read_in-eq-some :
    (r : Result StoreError Stored) (stored : Stored)
    → kept_or_none r ≡ ok (some stored)
    → r ≡ ok stored
unfolding kept_or_none
read_in-eq-some (ok s) stored h = ap ok (some-eq (ok-eq h))
read_in-eq-some (err e) stored h = cc (ok-eq h)

-- A file that can be read is loaded as a stored key exactly if it is, byte for byte, what encoding
-- that key writes: nothing longer, nothing cut short. The file is taken to consist of bytes,
-- numbers below 256.
pub load_iff :
    (bytes : Bytes) (stored : Stored)
    → AreBytes bytes
    → (load (ok (some (ok bytes))) ≡ ok (some stored)) ↔ (encode stored ≡ ok bytes)
unfolding load read_in
load_iff bytes stored b = (there, back)
  where
    there : kept_or_none (decode (take limit bytes)) ≡ ok (some stored) → encode stored ≡ ok bytes
    there h =
        let e =
          encode-decode (take limit bytes) stored (All-take _ limit bytes b)
            (read_in-eq-some _ stored h) in
        let short = length-encode stored (take limit bytes) e in
        let whole : take limit bytes ≡ bytes =
          take_all limit bytes (omega (arith, length-take limit bytes)) in
        rw whole at e

    back : encode stored ≡ ok bytes → kept_or_none (decode (take limit bytes)) ≡ ok (some stored)
    back h =
        let short = length-encode stored bytes h in
        rw (take_all limit bytes (omega arith), decode-encode stored bytes h) refl
