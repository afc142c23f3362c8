-- ===== src/Lpass/Discovery/Order.antt =====
-- The order in which src/lpass/mod.rs lists what it finds: by name, then by id.
use lastpass_ssh_agent.Prelude.{◌≡◌, refl, true, false, [], ◌∷◌, arith, Text}
use Prim.Native.Nat.{Ordering}
use lastpass_ssh_agent.Lpass.{ItemSummary}
use lastpass_ssh_agent.Lpass.Discovery.{text_cmp, item_le}

abbrev flip : Ordering → Ordering
flip Ordering.lt = Ordering.gt
flip Ordering.eq = Ordering.eq
flip Ordering.gt = Ordering.lt

text_cmp-flip : (s t : Text) → text_cmp t s ≡ flip (text_cmp s t)
unfolding text_cmp
text_cmp-flip [] [] = refl
text_cmp-flip [] (d ∷ t) = refl
text_cmp-flip (c ∷ s) [] = refl
text_cmp-flip (c ∷ s) (d ∷ t) = ground (arith, text_cmp-flip s t)

text_cmp-eq : (s t : Text) → text_cmp s t ≡ Ordering.eq → s ≡ t
unfolding text_cmp
text_cmp-eq [] [] h = refl
text_cmp-eq [] (d ∷ t) h = ground arith
text_cmp-eq (c ∷ s) [] h = ground arith
text_cmp-eq (c ∷ s) (d ∷ t) h = ground (arith, text_cmp-eq s t)

text_cmp_trans :
    (s t u : Text)
    → text_cmp s t ≡ Ordering.lt
    → text_cmp t u ≡ Ordering.lt
    → text_cmp s u ≡ Ordering.lt
unfolding text_cmp
text_cmp_trans [] [] u h k = ground arith
text_cmp_trans [] (d ∷ t) [] h k = ground arith
text_cmp_trans [] (d ∷ t) (e ∷ u) h k = refl
text_cmp_trans (c ∷ s) [] u h k = ground arith
text_cmp_trans (c ∷ s) (d ∷ t) [] h k = ground arith
text_cmp_trans (c ∷ s) (d ∷ t) (e ∷ u) h k = ground (arith, text_cmp_trans s t u)

pub item_le_total : (a b : ItemSummary) → item_le a b ≡ false → item_le b a ≡ true
unfolding item_le
item_le_total a b h = ground (arith, text_cmp-flip a.name b.name, text_cmp-flip a.id b.id)

pub item_le_antisymm : (a b : ItemSummary) → item_le a b ≡ true → item_le b a ≡ true → a ≡ b
unfolding item_le
item_le_antisymm a b h k = ground (
  arith,
  text_cmp-flip a.name b.name,
  text_cmp-flip a.id b.id,
  text_cmp-eq a.name b.name,
  text_cmp-eq a.id b.id,
)

pub item_le_trans :
    (a b c : ItemSummary) → item_le a b ≡ true → item_le b c ≡ true → item_le a c ≡ true
unfolding item_le
item_le_trans a b c h k = ground (
  arith,
  text_cmp-eq a.name b.name,
  text_cmp-eq b.name c.name,
  text_cmp-eq a.id b.id,
  text_cmp-eq b.id c.id,
  text_cmp_trans a.name b.name c.name,
  text_cmp_trans a.id b.id c.id,
)
