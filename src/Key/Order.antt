-- ===== src/Key/Order.antt =====
-- Keys are ordered by a strict total order, as std::set and std::map need it, and their texts tell
-- them apart.
use Prim.Native.Nat.{Ordering, compare}
use mapget.Base.{◌≡◌, ◌↔◌, Bool, true, false, [], ◌∷◌, refl, ap, sym, arith, ◌⊎◌}
use mapget.Base.Text.{Text, text_eq_iff, text_compare}
use mapget.Key.{LayerType, layer_rank, MapTileKey, then_compare, key_compare, less, equals}

abbrev flip : Ordering → Ordering
flip Ordering.lt = Ordering.gt
flip Ordering.eq = Ordering.eq
flip Ordering.gt = Ordering.lt

-- The laws of a three-way comparison.
record Compares {A : Type 0} (cmp : A → A → Ordering) : Type 0 where
  same : (a b : A) → cmp a b ≡ Ordering.eq → a ≡ b
  self : (a : A) → cmp a a ≡ Ordering.eq
  flipped : (a b : A) → cmp b a ≡ flip (cmp a b)
  trans : (a b c : A) → cmp a b ≡ Ordering.lt → cmp b c ≡ Ordering.lt → cmp a c ≡ Ordering.lt

nat-Compares : Compares compare
nat-Compares = record {
  same = λ a b h. ground arith;
  self = λ a. ground arith;
  flipped = λ a b. ground arith;
  trans = λ a b c h k. ground arith;
}

text_compare-same : (a b : Text) → text_compare a b ≡ Ordering.eq → a ≡ b
unfolding text_compare
text_compare-same [] [] h = refl
text_compare-same [] (y ∷ ys) h = cc
text_compare-same (x ∷ xs) [] h = cc
text_compare-same (x ∷ xs) (y ∷ ys) h = ground (arith, text_compare-same xs ys)

text_compare_self : (a : Text) → text_compare a a ≡ Ordering.eq
unfolding text_compare
text_compare_self [] = refl
text_compare_self (x ∷ xs) = ground (arith, text_compare_self xs)

text_compare-flipped : (a b : Text) → text_compare b a ≡ flip (text_compare a b)
unfolding text_compare
text_compare-flipped [] [] = refl
text_compare-flipped [] (y ∷ ys) = refl
text_compare-flipped (x ∷ xs) [] = refl
text_compare-flipped (x ∷ xs) (y ∷ ys) = ground (arith, text_compare-flipped xs ys)

text_compare_trans :
    (a b c : Text)
    → text_compare a b ≡ Ordering.lt
    → text_compare b c ≡ Ordering.lt
    → text_compare a c ≡ Ordering.lt
unfolding text_compare
text_compare_trans [] [] c h k = cc
text_compare_trans [] (y ∷ ys) [] h k = cc
text_compare_trans [] (y ∷ ys) (z ∷ zs) h k = refl
text_compare_trans (x ∷ xs) [] c h k = cc
text_compare_trans (x ∷ xs) (y ∷ ys) [] h k = cc
text_compare_trans (x ∷ xs) (y ∷ ys) (z ∷ zs) h k = ground (arith, text_compare_trans xs ys zs)

text-Compares : Compares text_compare
text-Compares = record {
  same = text_compare-same;
  self = text_compare_self;
  flipped = text_compare-flipped;
  trans = text_compare_trans;
}

layer_rank-same : (a b : LayerType) → layer_rank a ≡ layer_rank b → a ≡ b
layer_rank-same a b h = ground arith

key_compare-same : (a b : MapTileKey) → key_compare a b ≡ Ordering.eq → a ≡ b
unfolding key_compare
key_compare-same a b h = ground (
  arith,
  layer_rank-same a.layer b.layer,
  text_compare-same a.map_id b.map_id,
  text_compare-same a.layer_id b.layer_id,
)

key_compare_self : (a : MapTileKey) → key_compare a a ≡ Ordering.eq
unfolding key_compare
key_compare_self a = ground (arith, text_compare_self a.map_id, text_compare_self a.layer_id)

key_compare-flipped : (a b : MapTileKey) → key_compare b a ≡ flip (key_compare a b)
unfolding key_compare
key_compare-flipped a b =
    ground
      (arith, text_compare-flipped a.map_id b.map_id, text_compare-flipped a.layer_id b.layer_id)

-- What std::set and std::map ask of the order of their keys, and totality.
pub record IsStrictOrder {A : Type 0} (lt : A → A → Bool) : Type 0 where
  pub total : (a b : A) → (lt a b ≡ true) ⊎ ((a ≡ b) ⊎ (lt b a ≡ true))
  pub asym : (a b : A) → lt a b ≡ true → lt b a ≡ false
  pub transitive : (a b c : A) → lt a b ≡ true → lt b c ≡ true → lt a c ≡ true

-- Of two keys exactly one is less, or they are the same key.
pub less_total : (a b : MapTileKey) → (less a b ≡ true) ⊎ ((a ≡ b) ⊎ (less b a ≡ true))
unfolding less
less_total a b = ground (arith, key_compare-same a b, key_compare-flipped a b)

pub less_asym : (a b : MapTileKey) → less a b ≡ true → less b a ≡ false
unfolding less
less_asym a b h = ground (arith, key_compare-flipped a b)

-- What a lexicographic combination needs of each of its comparisons.
record Weak (cmp : MapTileKey → MapTileKey → Ordering) : Type 0 where
  left : (a b c : MapTileKey) → cmp a b ≡ Ordering.eq → cmp a c ≡ cmp b c
  right : (a b c : MapTileKey) → cmp b c ≡ Ordering.eq → cmp a c ≡ cmp a b
  trans :
      (a b c : MapTileKey) → cmp a b ≡ Ordering.lt → cmp b c ≡ Ordering.lt → cmp a c ≡ Ordering.lt

-- A comparison of one field.
Weak-on :
    {A : Type 0} (f : MapTileKey → A) (cmp : A → A → Ordering)
    → Compares cmp
    → Weak (λ a b. cmp (f a) (f b))
Weak-on f cmp w = record {
  left = λ a b c e. ap (λ v. cmp v (f c)) (w.same (f a) (f b) e);
  right = λ a b c e. ap (cmp (f a)) (sym (w.same (f b) (f c) e));
  trans = λ a b c. w.trans (f a) (f b) (f c);
}

module _ {c d : MapTileKey → MapTileKey → Ordering} (v : Weak c) (w : Weak d) where
  then_trans :
      (p q r : MapTileKey)
      → then_compare (c p q) (d p q) ≡ Ordering.lt
      → then_compare (c q r) (d q r) ≡ Ordering.lt
      → then_compare (c p r) (d p r) ≡ Ordering.lt
  then_trans p q r h k = ground (arith, v.left p q r, v.right p q r, v.trans p q r, w.trans p q r)

  Weak-then : Weak (λ a b. then_compare (c a b) (d a b))
  Weak-then = record {
    left = λ p q r e. ground (arith, v.left p q r, w.left p q r);
    right = λ p q r e. ground (arith, v.right p q r, w.right p q r);
    trans = then_trans;
  }

key_compare-Weak : Weak key_compare
unfolding key_compare
key_compare-Weak = Weak-then (Weak-on (λ k. layer_rank k.layer) compare nat-Compares) (
    Weak-then (Weak-on (λ k. k.map_id) text_compare text-Compares) (
      Weak-then (Weak-on (λ k. k.layer_id) text_compare text-Compares)
        (Weak-on (λ k. k.tile_id) compare nat-Compares)))

less→lt : (a b : MapTileKey) → less a b ≡ true → key_compare a b ≡ Ordering.lt
unfolding less
less→lt a b h = ground arith

lt→less : (a b : MapTileKey) → key_compare a b ≡ Ordering.lt → less a b ≡ true
unfolding less
lt→less a b h = ground arith

pub less_trans : (a b c : MapTileKey) → less a b ≡ true → less b c ≡ true → less a c ≡ true
less_trans a b c h k = lt→less a c (key_compare-Weak.trans a b c (less→lt a b h) (less→lt b c k))

-- Keys stand in a strict total order: of two keys one is less or they are equal, never both are
-- less than one another, and the order is transitive.
less-IsStrictOrder : IsStrictOrder less
less-IsStrictOrder = record { total = less_total; asym = less_asym; transitive = less_trans }

-- operator== holds of one and the same key only.
pub equals-eq : (a b : MapTileKey) → (equals a b ≡ true) ↔ (a ≡ b)
unfolding equals
equals-eq a b = ground (
  arith,
  layer_rank-same a.layer b.layer,
  text_eq_iff a.map_id b.map_id,
  text_eq_iff a.layer_id b.layer_id,
)
