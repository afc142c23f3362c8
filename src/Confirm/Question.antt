-- ===== src/Confirm/Question.antt =====
-- src/confirm/mod.rs, `approval_question`: when two requests are one question.
use mathlib.Core.Option
use mathlib.Core.Path.{subst}
use lastpass_ssh_agent.Text.{escape_for_display}
use lastpass_ssh_agent.Text.Safety.{IsClean, escape_for_display-IsClean}
use lastpass_ssh_agent.Requester.{Requester, Ancestor}
use lastpass_ssh_agent.Requester.Chain.{IsShown}
use lastpass_ssh_agent.Confirm.{
  PeerInfo, SessionBinding, ConfirmContext, newline, shown_name, hop, pieces, lines_onto,
  approval_question,
}
use lastpass_ssh_agent.Confirm.Encoding.{
  HopWords, Words, encode_hop, lines, encode, IsEncodable, ClearPath, ClearHop, encode-injective,
}
use lastpass_ssh_agent.Prelude.{
  ◌≡◌, refl, sym, ap, ◌∙◌, ◌↔◌, Option, none, some, List, [], ◌∷◌, ◌++◌, map, append_assoc,
  append-nil, arith, ◌>>=◌, All, Text, >>=-eq-some, some-eq,
}

abbrev name_or_nothing : Option Text → Text
name_or_nothing none = []
name_or_nothing (some name) = escape_for_display name

pub hop_words : SessionBinding → HopWords
hop_words b = record {
  fingerprint = escape_for_display b.host_fingerprint;
  name = name_or_nothing b.host_name;
  is_forwarding = b.is_forwarding;
}

pub words_of : ConfirmContext → PeerInfo → Requester → Words
words_of ctx peer requester = record {
  item_id = escape_for_display ctx.item_id;
  fingerprint = escape_for_display ctx.fingerprint;
  key_name = escape_for_display ctx.key_name;
  process = requester.process;
  uid = peer.uid;
  paths = map (λ a. a.path) requester.origin;
  hops = map hop_words ctx.bindings;
}

-- Nothing where the requester cannot be told from another.
pub words : ConfirmContext → Option Words
unfolding words_of hop_words
words ctx = do peer ← ctx.peer; requester ← ctx.requester; some (words_of ctx peer requester)

-- The requester's texts are escaped, and its ancestors have paths, as `Requester::of` makes them.
abbrev pub IsPresentable : ConfirmContext → Type 0
IsPresentable ctx =
    (r : Requester) → ctx.requester ≡ some r → All IsClean r.process × All IsShown r.origin

lines_onto-lines : (out : Text) (ps : List Text) → lines_onto out ps ≡ out ++ lines ps
unfolding lines_onto lines
lines_onto-lines out [] = sym (append-nil out)
lines_onto-lines out (p ∷ ps) = lines_onto-lines (out ++ (p ++ newline ∷ [])) ps ∙ simp append_assoc

hop-encode_hop : (b : SessionBinding) → hop b ≡ encode_hop (hop_words b)
unfolding hop hop_words encode_hop shown_name
hop-encode_hop b = ground arith

map-hop : (bs : List SessionBinding) → map hop bs ≡ map encode_hop (map hop_words bs)
map-hop [] = refl
map-hop (b ∷ bs) = cc (hop-encode_hop b, map-hop bs)

lift_words :
    (p : Option PeerInfo) (r : Option Requester) (f : PeerInfo → Requester → Text)
    (w : PeerInfo → Requester → Words) (encode : Words → Text)
    → ((peer : PeerInfo) (requester : Requester) → f peer requester ≡ encode (w peer requester))
    → (p >>= λ peer. r >>= λ requester. some (f peer requester))
      ≡ Option.map encode (p >>= λ peer. r >>= λ requester. some (w peer requester))
lift_words none r f w encode h = refl
lift_words (some p) none f w encode h = refl
lift_words (some p) (some r) f w encode h = ap some (h p r)

question-words : (ctx : ConfirmContext) → approval_question ctx ≡ Option.map encode (words ctx)
unfolding approval_question words words_of pieces encode
question-words ctx =
    lift_words ctx.peer ctx.requester _ (words_of ctx) encode
      λ peer requester. lines_onto-lines [] (pieces ctx peer requester) ∙ rw map-hop

paths-ClearPath : (xs : List Ancestor) → All IsShown xs → All ClearPath (map (λ a. a.path) xs)
paths-ClearPath [] h = tt
paths-ClearPath (a ∷ xs) h = ((h.0.path, h.0.nonempty_path), paths-ClearPath xs h.1)

hops-ClearHop : (bs : List SessionBinding) → All ClearHop (map hop_words bs)
unfolding hop_words
hops-ClearHop [] = tt
hops-ClearHop (b ∷ bs) =
    ((escape_for_display-IsClean _, name-IsClean b.host_name), hops-ClearHop bs)
  where
    name-IsClean : (o : Option Text) → All IsClean (name_or_nothing o)
    name-IsClean none = tt
    name-IsClean (some s) = escape_for_display-IsClean s

words-IsEncodable :
    (c : ConfirmContext) (w : Words) → IsPresentable c → words c ≡ some w → IsEncodable w
unfolding words words_of
words-IsEncodable c w p e =
    let (peer, e₁, h) = >>=-eq-some c.peer _ e in
    let (r, e₂, k) = >>=-eq-some c.requester _ h in
    subst IsEncodable (some-eq k) (made r (p r e₂) peer)
  where
    made :
        (r : Requester)
        → All IsClean r.process × All IsShown r.origin
        → (peer : PeerInfo) → IsEncodable (words_of c peer r)
    made r h peer = (
      escape_for_display-IsClean _,
      escape_for_display-IsClean _,
      escape_for_display-IsClean _,
      h.0,
      paths-ClearPath r.origin h.1,
      hops-ClearHop c.bindings,
    )

map-encode-injective :
    (v w : Option Words)
    → ((u : Words) → v ≡ some u → IsEncodable u)
    → ((u : Words) → w ≡ some u → IsEncodable u)
    → Option.map encode v ≡ Option.map encode w
    → v ≡ w
map-encode-injective none none hv hw e = refl
map-encode-injective none (some w) hv hw e = cc
map-encode-injective (some v) none hv hw e = cc
map-encode-injective (some v) (some w) hv hw e =
    ap some (encode-injective v w (hv v refl) (hw w refl) (some-eq e))

-- Two requests are one question exactly when everything the question is about, as displayed, is the
-- same: the item, the key's fingerprint and name, the process and its user, the paths of what it was
-- started from, and each hop's fingerprint, name and forwarding. Of texts that come from a process
-- it is supposed that they are escaped and that no path is empty, as the lookup of a requester leaves them.
pub question_iff :
    (c d : ConfirmContext)
    → IsPresentable c
    → IsPresentable d
    → (approval_question c ≡ approval_question d) ↔ (words c ≡ words d)
question_iff c d pc pd = (
  λ e.
      map-encode-injective (words c) (words d) (λ u. words-IsEncodable c u pc)
        (λ u. words-IsEncodable d u pd) (sym (question-words c) ∙ e ∙ question-words d),
  λ e. question-words c ∙ ap (Option.map encode) e ∙ sym (question-words d),
)
