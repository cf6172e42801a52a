-- ===== src/Aggregate/Order.antt =====
-- The keys by which `aggregate` sorts are in a total order.
use robo_services.Prelude.{
  ℕ, ◌≡◌, arith, String, Bool, true, false, if◌then◌else◌, ◌==◌, nat_eq, list_eq, list_beq_iff,
  Bool-cases, inl, inr,
}
use robo_services.Prelude.Text.{Text, codes}
use robo_services.Prelude.Sort.{leb_text, leb_text-total, leb_text_trans, leb_text-antisym}
use robo_services.Signal.{AggregatedSignal}
use robo_services.Aggregate.{leb_key, leb_item}

-- Two texts in order
abbrev leb_texts : Text → Text → Text → Text → Bool
leb_texts a b c d = if a == c then leb_text b d else leb_text a c

leb_texts-total : (a b c d : Text) → leb_texts a b c d ≡ false → leb_texts c d a b ≡ true
leb_texts-total a b c d h = elim (Bool-cases (a == c)) [
  | inl same ↦ ground (arith, list_beq_iff a c, list_beq_iff c a, leb_text-total b d)
  | inr other ↦ ground (arith, list_beq_iff a c, list_beq_iff c a, leb_text-total a c)
]

leb_texts_trans :
    (a b c d e f : Text)
    → leb_texts a b c d ≡ true
    → leb_texts c d e f ≡ true
    → leb_texts a b e f ≡ true
leb_texts_trans a b c d e f h k = ground (
  arith,
  list_beq_iff a c,
  list_beq_iff c e,
  list_beq_iff a e,
  leb_text_trans a c e,
  leb_text_trans b d f,
  leb_text-antisym a c,
  leb_text-antisym c a,
)

leb_key-total :
    (t : ℕ) (a b : String) (u : ℕ) (c d : String)
    → leb_key t a b u c d ≡ false
    → leb_key u c d t a b ≡ true
unfolding leb_key
leb_key-total t a b u c d h =
    ground (arith, leb_texts-total (codes a) (codes b) (codes c) (codes d))

leb_key_trans :
    (t : ℕ) (a b : String) (u : ℕ) (c d : String) (v : ℕ) (e f : String)
    → leb_key t a b u c d ≡ true
    → leb_key u c d v e f ≡ true
    → leb_key t a b v e f ≡ true
unfolding leb_key
leb_key_trans t a b u c d v e f h k =
    ground (arith, leb_texts_trans (codes a) (codes b) (codes c) (codes d) (codes e) (codes f))

module _ {F : Type 0} where
  pub leb_item-total : (x y : AggregatedSignal F) → leb_item x y ≡ false → leb_item y x ≡ true
  unfolding leb_item
  leb_item-total x y =
      leb_key-total x.window_start x.topic x.signal_name y.window_start y.topic y.signal_name

  pub leb_item_trans :
      (x y z : AggregatedSignal F) → leb_item x y ≡ true → leb_item y z ≡ true → leb_item x z ≡ true
  unfolding leb_item
  leb_item_trans x y z =
      leb_key_trans x.window_start x.topic x.signal_name y.window_start y.topic y.signal_name
        z.window_start z.topic z.signal_name
