-- ===== src/Metaball/Lifecycle.antt =====
-- What the vessel holds of the graphics context, over visits of the ceremony: its canvas comes onto the
-- page and leaves it, and `attachCanvas` hears of both.
use native.Mathlib.Nat.{add-zero}
use moltenpour.Prelude.{
  ℕ, suc, ◌+◌, List, [], ◌∷◌, ◌++◌, none, some, Bool, true, false, ◌&&◌, if◌then◌else◌, ◌≡◌, refl,
  ap, ◌∙◌, arith,
}
use moltenpour.Metaball.Defs.{
  Size, Answers, GlCall, create_program, create_buffer, observe, disconnect, delete_buffer,
  delete_program, lose_context, compile, program_calls, is_lit, all_of, create_renderer, dispose,
  disposing, Lamp, attach_canvas,
}

-- What was taken and what was given back.
pub record GlHeld : Type 0 where
  pub observers : ℕ
  pub observers_closed : ℕ
  pub buffers : ℕ
  pub buffers_deleted : ℕ
  pub programs_given : ℕ
  pub programs_deleted : ℕ
  pub contexts_lost : ℕ

unfoldable pub count_call : GlCall → GlHeld → GlHeld
count_call observe h = record h { observers = suc h.observers }
count_call disconnect h = record h { observers_closed = suc h.observers_closed }
count_call create_buffer h = record h { buffers = suc h.buffers }
count_call delete_buffer h = record h { buffers_deleted = suc h.buffers_deleted }
count_call (create_program given) h = record h {
  programs_given = if given then suc h.programs_given else h.programs_given;
}
count_call delete_program h = record h { programs_deleted = suc h.programs_deleted }
count_call lose_context h = record h { contexts_lost = suc h.contexts_lost }
count_call call h = h

unfoldable pub held_after : GlHeld → List GlCall → GlHeld
held_after h [] = h
held_after h (c ∷ cs) = held_after (count_call c h) cs

-- After so many visits that lit the vessel, that were given a program, and that could be released.
abbrev pub held : ℕ → ℕ → ℕ → GlHeld
held lit given lost = record {
  observers = lit;
  observers_closed = lit;
  buffers = lit;
  buffers_deleted = lit;
  programs_given = given;
  programs_deleted = lit;
  contexts_lost = lost;
}

abbrev pub one_if : Bool → ℕ → ℕ
one_if true n = suc n
one_if false n = n

-- The canvas comes and goes, once for each visit.
unfoldable pub visits : List (Answers × Size) → Lamp → Lamp
visits [] lamp = lamp
visits (v ∷ vs) lamp = visits vs (attach_canvas none (attach_canvas (some v) lamp))

abbrev pub dark : Lamp
dark = record { calls = []; renderer = none; unlit = false }

lighting : Unit {0}
unfolding held_after count_call create_renderer program_calls compile is_lit all_of dispose
lighting = tt

-- How many of the visits find a context for which a test holds.
unfoldable pub count_visits : (Answers → Bool) → List (Answers × Size) → ℕ
count_visits test [] = 0
count_visits test (v ∷ vs) = one_if (test v.0) (count_visits test vs)

-- A program is given, and a lit vessel can be released.
abbrev pub is_given : Answers → Bool
is_given gl = gl.context && gl.program

abbrev pub is_released : Answers → Bool
is_released gl = is_lit gl && gl.lose_extension

held_after-++ :
    (h : GlHeld) (cs ds : List GlCall) → held_after h (cs ++ ds) ≡ held_after (held_after h cs) ds
unfolding held_after
held_after-++ h [] ds = refl
held_after-++ h (c ∷ cs) ds = held_after-++ (count_call c h) cs ds

-- What a visit leaves behind, for each answer of its context.
visit_held :
    (gl : Answers) (size : Size) (l g r : ℕ)
    → held_after
        (held_after (held l g r) (create_renderer gl size).0)
        (disposing (create_renderer gl size).1)
      ≡ held (one_if (is_lit gl) l) (one_if (is_given gl) g) (one_if (is_released gl) r)
visit_held gl size l g r =
    by gl.context gl.program gl.vertex_created gl.vertex_compiles gl.fragment_created
      gl.fragment_compiles gl.links gl.lose_extension
  where
    asked : (c p v w f e n x : Bool) → Answers
    asked c p v w f e n x = record {
      context = c;
      program = p;
      vertex_created = v;
      vertex_compiles = w;
      fragment_created = f;
      fragment_compiles = e;
      links = n;
      lose_extension = x;
    }

    by :
        (c p v w f e n x : Bool)
        → let a = asked c p v w f e n x in
          held_after
            (held_after (held l g r) (create_renderer a size).0)
            (disposing (create_renderer a size).1)
          ≡ held (one_if (is_lit a) l) (one_if (is_given a) g) (one_if (is_released a) r)
    by false p v w f e n x = unfold lighting in refl
    by true false v w f e n x = unfold lighting in refl
    by true true false w f e n x = unfold lighting in refl
    by true true true false f e n x = unfold lighting in refl
    by true true true true false e n x = unfold lighting in refl
    by true true true true true false n x = unfold lighting in refl
    by true true true true true true false x = unfold lighting in refl
    by true true true true true true true true = unfold lighting in refl
    by true true true true true true true false = unfold lighting in refl

one_if-+ : (b : Bool) (n k : ℕ) → one_if b n + k ≡ n + one_if b k
one_if-+ true n k = omega arith
one_if-+ false n k = refl

visits-held_from :
    (vs : List (Answers × Size)) (lamp : Lamp) (l g r : ℕ)
    → held_after (held 0 0 0) lamp.calls ≡ held l g r
    → lamp.renderer ≡ none
    → (held_after (held 0 0 0) (visits vs lamp).calls
        ≡ held
            (l + count_visits is_lit vs)
            (g + count_visits is_given vs)
            (r + count_visits is_released vs))
      × ((visits vs lamp).renderer ≡ none)
unfolding visits count_visits
visits-held_from [] lamp l g r h e = rw (add-zero l, add-zero g, add-zero r) (h, e)
visits-held_from ((gl, size) ∷ vs) lamp l g r h e =
    let after = attach_canvas none (attach_canvas (some (gl, size)) lamp) in
    let bare : after.renderer ≡ none = unfold attach_canvas in refl in
    let (all, gone) =
      visits-held_from vs after (one_if (is_lit gl) l) (one_if (is_given gl) g)
        (one_if (is_released gl) r) calls bare in
    (
      all ∙ (λ i.
          held (one_if-+ (is_lit gl) l (count_visits is_lit vs) i)
            (one_if-+ (is_given gl) g (count_visits is_given vs) i)
            (one_if-+ (is_released gl) r (count_visits is_released vs) i)),
      gone,
    )
  where
    calls :
        held_after (held 0 0 0) (attach_canvas none (attach_canvas (some (gl, size)) lamp)).calls
        ≡ held (one_if (is_lit gl) l) (one_if (is_given gl) g) (one_if (is_released gl) r)
    calls =
        unfold attach_canvas in
        let made = create_renderer gl size in
        held_after-++ (held 0 0 0) (lamp.calls ++ made.0) (disposing made.1)
        ∙ ap (λ k. held_after k (disposing made.1))
            (held_after-++ (held 0 0 0) lamp.calls made.0 ∙ ap (λ k. held_after k made.0) h)
        ∙ visit_held gl size l g r

-- However often the ceremony is visited and left, and whatever the contexts of its canvases answer,
-- afterwards there is no renderer; observers, buffers and the programs of a lit vessel were taken and given
-- back, one of each for each visit that lit the vessel; a program was given, and outside a lit vessel kept,
-- on each visit whose context gives one; and a context was released on each visit that lit the vessel and
-- has the extension for it.
pub visits-held :
    (vs : List (Answers × Size))
    → (held_after (held 0 0 0) (visits vs dark).calls
        ≡ held (count_visits is_lit vs) (count_visits is_given vs) (count_visits is_released vs))
      × ((visits vs dark).renderer ≡ none)
visits-held vs =
    let (all, gone) = visits-held_from vs dark 0 0 0 (unfold held_after in refl) refl in
    let same : (n : ℕ) → 0 + n ≡ n = λ n. omega arith in
    (
      all ∙ (λ i.
          held (same (count_visits is_lit vs) i) (same (count_visits is_given vs) i)
            (same (count_visits is_released vs) i)),
      gone,
    )
