-- ===== src/Markup/Laws.antt =====
-- Reading through lists of elements, joined and mapped.
use moltenpour.Prelude.{
  List, [], ◌∷◌, ◌++◌, map, Bool, true, false, ◌&&◌, ◌≡◌, refl, ap, ap₂, ◌∙◌, sym, append_assoc,
}
use moltenpour.Text.{Text}
use moltenpour.Markup.Defs.{Declaration, Node, nodes, node}
use moltenpour.Markup.Read.{
  declared, declared_nodes, spoken, spoken_nodes, spoken_in, spoken_in_nodes, live, live_nodes,
  layout, layout_nodes,
}

abbrev pub flat_map : {A B : Type 0} → (A → List B) → List A → List B
flat_map f [] = []
flat_map f (x ∷ xs) = f x ++ flat_map f xs

and_assoc : (x y z : Bool) → (x && y) && z ≡ x && (y && z)
and_assoc true y z = refl
and_assoc false y z = refl

module _ {H : Type 0} where
  pub declared-append :
      (p : Declaration → Bool) (us vs : List (Node H))
      → declared_nodes p (nodes (us ++ vs))
        ≡ declared_nodes p (nodes us) && declared_nodes p (nodes vs)
  unfolding declared
  declared-append p [] vs = refl
  declared-append p (u ∷ us) vs =
      ap (λ b. declared p u && b) (declared-append p us vs)
      ∙ sym (and_assoc (declared p u) (declared_nodes p (nodes us)) (declared_nodes p (nodes vs)))

  pub spoken_in-append :
      (tag : Text) (us vs : List (Node H))
      → spoken_in_nodes tag (nodes (us ++ vs))
        ≡ spoken_in_nodes tag (nodes us) ++ spoken_in_nodes tag (nodes vs)
  unfolding spoken_in
  spoken_in-append tag [] vs = refl
  spoken_in-append tag (u ∷ us) vs = rw (spoken_in-append tag us vs, append_assoc)

  pub spoken-append :
      (us vs : List (Node H))
      → spoken_nodes (nodes (us ++ vs)) ≡ spoken_nodes (nodes us) ++ spoken_nodes (nodes vs)
  unfolding spoken
  spoken-append [] vs = refl
  spoken-append (u ∷ us) vs = rw (spoken-append us vs, append_assoc)

module _ {H A : Type 0} (f : A → Node H) where
  pub declared-map :
      (p : Declaration → Bool) (xs : List A)
      → ((x : A) → declared p (f x) ≡ true)
      → declared_nodes p (nodes (map f xs)) ≡ true
  unfolding declared
  declared-map p [] h = refl
  declared-map p (x ∷ xs) h = rw (h x) (declared-map p xs h)

  pub spoken_in-map :
      (tag : Text) (g : A → List Text) (xs : List A)
      → ((x : A) → spoken_in tag (f x) ≡ g x)
      → spoken_in_nodes tag (nodes (map f xs)) ≡ flat_map g xs
  unfolding spoken_in
  spoken_in-map tag g [] h = refl
  spoken_in-map tag g (x ∷ xs) h = ap₂ (λ a b. a ++ b) (h x) (spoken_in-map tag g xs h)

  pub spoken-map :
      (g : A → List Text) (xs : List A)
      → ((x : A) → spoken (f x) ≡ g x)
      → spoken_nodes (nodes (map f xs)) ≡ flat_map g xs
  unfolding spoken
  spoken-map g [] h = refl
  spoken-map g (x ∷ xs) h = ap₂ (λ a b. a ++ b) (h x) (spoken-map g xs h)

  -- Two callbacks that lay out alike make lists that lay out alike, whatever comes behind them.
  pub layout-map :
      (g : A → Node H) (xs : List A) (us vs : List (Node H))
      → ((x : A) → layout (f x) ≡ layout (g x))
      → layout_nodes (nodes us) ≡ layout_nodes (nodes vs)
      → layout_nodes (nodes (map f xs ++ us)) ≡ layout_nodes (nodes (map g xs ++ vs))
  unfolding layout
  layout-map g [] us vs h e = e
  layout-map g (x ∷ xs) us vs h e = ap₂ node (h x) (layout-map g xs us vs h e)

  pub layout-map_end :
      (g : A → Node H) (xs : List A)
      → ((x : A) → layout (f x) ≡ layout (g x))
      → layout_nodes (nodes (map f xs)) ≡ layout_nodes (nodes (map g xs))
  unfolding layout
  layout-map_end g [] h = refl
  layout-map_end g (x ∷ xs) h = ap₂ node (h x) (layout-map_end g xs h)

  pub live-map_none :
      (xs : List A) → ((x : A) → live (f x) ≡ []) → live_nodes (nodes (map f xs)) ≡ []
  unfolding live
  live-map_none [] h = refl
  live-map_none (x ∷ xs) h = rw (h x) (live-map_none xs h)

module _ {H : Type 0} where
  pub live-append :
      (us vs : List (Node H))
      → live_nodes (nodes (us ++ vs)) ≡ live_nodes (nodes us) ++ live_nodes (nodes vs)
  unfolding live
  live-append [] vs = refl
  live-append (u ∷ us) vs = rw (live-append us vs, append_assoc)
