-- ===== src/Confirm/Encoding.antt =====
-- src/confirm/mod.rs, `approval_question`: the encoding of what a question is about.
use lastpass_ssh_agent.Text.{decimal, digits-IsDigit, decimal-injective, is_control}
use lastpass_ssh_agent.Text.Safety.{IsClean, digits-IsClean}
use lastpass_ssh_agent.Text.Separated.{join, Lacks, IsPart, cut_unique, join-injective, All-join}
use lastpass_ssh_agent.Confirm.{sep, field, newline}
use lastpass_ssh_agent.Prelude.{
  ℕ, zero, suc, ◌≡◌, refl, ap, ◌≢◌, Bool, true, false, List, [], ◌∷◌, ◌++◌, map, arith,
  if◌then◌else◌, All, All-append, Text, codes,
}

-- A hop of the prompt: the fingerprint, the name, and whether the agent is forwarded from there.
pub record HopWords : Type 0 where
  pub fingerprint : Text
  pub name : Text
  pub is_forwarding : Bool

-- What an approval answers for, each text as it is displayed.
pub record Words : Type 0 where
  pub item_id : Text
  pub fingerprint : Text
  pub key_name : Text
  pub process : Text
  pub uid : ℕ
  pub paths : List Text
  pub hops : List HopWords

-- The question as an encoding of the words.
unfoldable pub encode_hop : HopWords → Text
encode_hop h =
    h.fingerprint
    ++ (field ∷ h.name ++ (field ∷ (if h.is_forwarding then codes "forwarding" else [])))

unfoldable pub encode_pieces : Words → List Text
encode_pieces w =
    w.item_id
    ∷ w.fingerprint
    ∷ w.key_name
    ∷ w.process
    ∷ decimal w.uid
    ∷ join (sep ∷ []) w.paths
    ∷ join (sep ∷ []) (map encode_hop w.hops)
    ∷ []

unfoldable pub lines : List Text → Text
lines [] = []
lines (piece ∷ rest) = piece ++ newline ∷ lines rest

unfoldable pub encode : Words → Text
unfolding encode_pieces
encode w = lines (encode_pieces w)

-- Clean text has no separator.
clean-Lacks : (c : ℕ) (s : Text) → is_control c ≡ true → All IsClean s → Lacks c s
clean-Lacks c [] e h = tt
clean-Lacks c (d ∷ s) e h = ((λ p. cc), clean-Lacks c s e h.1)

abbrev pub IsEncodable : Words → Type 0
IsEncodable w =
    All IsClean w.item_id
    × All IsClean w.fingerprint
    × All IsClean w.key_name
    × All IsClean w.process
    × All (λ p. All IsClean p × (p ≢ [])) w.paths
    × All (λ (h : HopWords). All IsClean h.fingerprint × All IsClean h.name) w.hops

-- An encodable text is determined by its encoding, step by step.
lines-injective :
    (ps qs : List Text)
    → All (Lacks newline) ps
    → All (Lacks newline) qs
    → lines ps ≡ lines qs
    → ps ≡ qs
unfolding lines
lines-injective [] [] hp hq e = refl
lines-injective [] ([] ∷ qs) hp hq e = cc
lines-injective [] ((c ∷ q) ∷ qs) hp hq e = cc
lines-injective ([] ∷ ps) [] hp hq e = cc
lines-injective ((c ∷ p) ∷ ps) [] hp hq e = cc
lines-injective (p ∷ ps) (q ∷ qs) hp hq e =
    let (h, k) = cut_unique newline p q (lines ps) (lines qs) hp.0 hq.0 e in
    cc (h, lines-injective ps qs hp.1 hq.1 k)

control_newline : is_control newline ≡ true
unfolding is_control
control_newline = refl

control_sep : is_control sep ≡ true
unfolding is_control
control_sep = refl

control_field : is_control field ≡ true
unfolding is_control
control_field = refl

abbrev pub ClearHop : HopWords → Type 0
ClearHop h = All IsClean h.fingerprint × All IsClean h.name

forwarding_words : Bool → Text
forwarding_words b = if b then codes "forwarding" else []

encode_hop-injective :
    (h k : HopWords) → ClearHop h → ClearHop k → encode_hop h ≡ encode_hop k → h ≡ k
unfolding encode_hop
encode_hop-injective h k ch ck e =
    let (p, r) =
      cut_unique field h.fingerprint k.fingerprint _ _ (clean-Lacks field _ control_field ch.0)
        (clean-Lacks field _ control_field ck.0) e in
    let (q, s) =
      cut_unique field h.name k.name _ _ (clean-Lacks field _ control_field ch.1)
        (clean-Lacks field _ control_field ck.1) r in
    hop_eq p q (ground arith)
  where
    hop_eq :
        h.fingerprint ≡ k.fingerprint → h.name ≡ k.name → h.is_forwarding ≡ k.is_forwarding → h ≡ k
    hop_eq p q r = λ i. record { fingerprint = p i; name = q i; is_forwarding = r i }

map-injective :
    (hs ks : List HopWords)
    → All ClearHop hs
    → All ClearHop ks
    → map encode_hop hs ≡ map encode_hop ks
    → hs ≡ ks
map-injective [] [] ch ck e = refl
map-injective [] (k ∷ ks) ch ck e = cc
map-injective (h ∷ hs) [] ch ck e = cc
map-injective (h ∷ hs) (k ∷ ks) ch ck e = cc (
  encode_hop-injective h k ch.0 ck.0 (ground arith),
  map-injective hs ks ch.1 ck.1 (ground arith),
)

encode_hop-All :
    (P : ℕ → Type 0) (h : HopWords)
    → All P h.fingerprint
    → All P h.name
    → P field
    → All P (codes "forwarding")
    → All P (encode_hop h)
unfolding encode_hop
encode_hop-All P h p q r s =
    All-append P h.fingerprint _ p (r, All-append P h.name _ q (r, last_part h.is_forwarding))
  where
    last_part : (b : Bool) → All P (if b then codes "forwarding" else [])
    last_part true = s
    last_part false = tt

encode_hop-nonempty : (h : HopWords) → encode_hop h ≢ []
unfolding encode_hop
encode_hop-nonempty h = go h.fingerprint _
  where
    go : (s r : Text) → s ++ field ∷ r ≢ []
    go [] r e = cc
    go (c ∷ s) r e = cc

-- The piece at a place.
nth : ℕ → List Text → Text
nth i [] = []
nth zero (p ∷ ps) = p
nth (suc i) (p ∷ ps) = nth i ps

hops-Lacks :
    (hs : List HopWords) → All ClearHop hs → All (All (λ c. c ≢ newline)) (map encode_hop hs)
hops-Lacks [] h = tt
hops-Lacks (b ∷ hs) h = (
  encode_hop-All (λ c. c ≢ newline) b (clean-Lacks newline _ control_newline h.0.0)
      (clean-Lacks newline _ control_newline h.0.1) (omega arith) (omega arith),
  hops-Lacks hs h.1,
)

hops-IsPart : (hs : List HopWords) → All ClearHop hs → All (IsPart sep) (map encode_hop hs)
hops-IsPart [] h = tt
hops-IsPart (b ∷ hs) h = (
  (
    encode_hop-All (λ c. c ≢ sep) b (clean-Lacks sep _ control_sep h.0.0)
        (clean-Lacks sep _ control_sep h.0.1) (omega arith) (omega arith),
    encode_hop-nonempty b,
  ),
  hops-IsPart hs h.1,
)

abbrev pub ClearPath : Text → Type 0
ClearPath p = All IsClean p × (p ≢ [])

paths-Lacks : (c : ℕ) (ps : List Text) → is_control c ≡ true → All ClearPath ps → All (Lacks c) ps
paths-Lacks c [] e h = tt
paths-Lacks c (p ∷ ps) e h = (clean-Lacks c p e h.0.0, paths-Lacks c ps e h.1)

paths-IsPart : (ps : List Text) → All ClearPath ps → All (IsPart sep) ps
paths-IsPart [] h = tt
paths-IsPart (p ∷ ps) h = ((clean-Lacks sep p control_sep h.0.0, h.0.1), paths-IsPart ps h.1)

decimal-IsClean : (n : ℕ) → All IsClean (decimal n)
unfolding decimal
decimal-IsClean n = digits-IsClean _ (digits-IsDigit 10 1 n (omega arith) (omega arith))

encode_pieces-Lacks : (w : Words) → IsEncodable w → All (Lacks newline) (encode_pieces w)
unfolding encode_pieces
encode_pieces-Lacks w h = (
  clear w.item_id h.0,
  (
    clear w.fingerprint h.1,
    (
      clear w.key_name h.2,
      (
        clear w.process h.3,
        (
          clear (decimal w.uid) (decimal-IsClean w.uid),
          (
            All-join (λ c. c ≢ newline) (sep ∷ []) w.paths (omega arith, tt)
                (paths-Lacks newline w.paths control_newline h.4),
            (
              All-join (λ c. c ≢ newline) (sep ∷ []) (map encode_hop w.hops) (omega arith, tt)
                  (hops-Lacks w.hops h.5),
              tt,
            ),
          ),
        ),
      ),
    ),
  ),
)
  where
    clear : (s : Text) → All IsClean s → Lacks newline s
    clear s h = clean-Lacks newline s control_newline h

-- The pieces of two words that are the same list make the same words.
pieces-injective :
    (v w : Words) → IsEncodable v → IsEncodable w → encode_pieces v ≡ encode_pieces w → v ≡ w
unfolding encode_pieces nth
pieces-injective v w hv hw e = λ i. record {
  item_id = ap (nth 0) e i;
  fingerprint = ap (nth 1) e i;
  key_name = ap (nth 2) e i;
  process = ap (nth 3) e i;
  uid = decimal-injective v.uid w.uid (ap (nth 4) e) i;
  paths =
      join-injective sep v.paths w.paths (paths-IsPart v.paths hv.4) (paths-IsPart w.paths hw.4)
        (ap (nth 5) e) i;
  hops =
      map-injective v.hops w.hops hv.5 hw.5
        (join-injective sep (map encode_hop v.hops) (map encode_hop w.hops)
          (hops-IsPart v.hops hv.5) (hops-IsPart w.hops hw.5) (ap (nth 6) e))
        i;
}

pub encode-injective : (v w : Words) → IsEncodable v → IsEncodable w → encode v ≡ encode w → v ≡ w
unfolding encode
encode-injective v w hv hw e = pieces-injective v w hv hw (
    lines-injective (encode_pieces v) (encode_pieces w) (encode_pieces-Lacks v hv)
      (encode_pieces-Lacks w hw) e)
