-- ===== src/Pingpong/Args/Laws.antt =====
-- What `parse_args` of pingpong.c makes of its arguments.
use mathlib.Core.Path.{subst}
use osjitter.Prelude.{
  ℕ, ◌<◌, ◌≡◌, ◌≢◌, refl, sym, ◌∙◌, inl, inr, List, [], ◌∷◌, All, arith, ltb, ◌==◌, Bool-cases,
}
use osjitter.Prelude.Text.{str_eq}
use osjitter.Util.Atoi.{atoi}
use osjitter.Pingpong.Args.{
  Method, spin_pause, spin_pause_more, Args, no_args, Kind, help, unknown, pin, flag, number,
  kind_in, options, on_kind, Parsed, refused, helped, exited, accepted, set_pin, parse_loop,
  with_pauses, set_defaults, with_defaults, parse_args,
}

-- The method that only `set_defaults` chooses.
abbrev IsChosen : Method → Type 0
IsChosen m = m ≢ spin_pause_more

-- what an argument may do to the method
abbrev Keeps : Kind → Type 0
Keeps (flag f) = (a : Args) → IsChosen a.method → IsChosen (f a).method
Keeps (number f) = (v : ℕ) (a : Args) → (f v a).method ≡ a.method
Keeps _ = Unit

kind_in-Keeps :
    (tests : List (List ℕ × Kind))
    → All (λ t. Keeps t.1) tests
    → (s : List ℕ) → Keeps (kind_in tests s)
unfolding kind_in
kind_in-Keeps [] h s = tt
kind_in-Keeps ((name, kind) ∷ tests) h s = elim (Bool-cases (str_eq s name)) [
  | inl same ↦ rw same h.0
  | inr other ↦ rw other (kind_in-Keeps tests h.1 s)
]

options-Keeps : All (λ t. Keeps t.1) options
options-Keeps = (
  tt,
  (
    tt,
    (
      λ v a. refl,
      (
        λ v a. refl,
        (
          λ v a. refl,
          (
            λ v a. refl,
            (
              tt,
              (
                λ a h. h,
                (
                  λ a h e. cc,
                  (
                    λ a h e. cc,
                    (λ a h e. cc, (λ a h e. cc, (λ a h e. cc, (λ a h e. cc, (λ a h e. cc, tt))))),
                  ),
                ),
              ),
            ),
          ),
        ),
      ),
    ),
  ),
)

-- every accepted outcome satisfies it
abbrev Accepts : (Args → Type 0) → Parsed → Type 0
Accepts P (accepted a) = P a
Accepts P _ = Unit

set_pin-Accepts :
    (P : Args → Type 0) (j cpu : ℕ) (a : Args) (next : Args → Parsed)
    → ((b : Args) → b.method ≡ a.method → Accepts P (next b))
    → Accepts P (set_pin j cpu a next)
set_pin-Accepts P j cpu a next h = elim (Bool-cases (ltb 1 j)) [
  | inl big ↦ rw big tt
  | inr small ↦ elim (Bool-cases (j == 0)) [
    | inl first ↦ rw (small, first) (h _ refl)
    | inr second ↦ rw (small, second) (h _ refl)
  ]
]

on_kind-Accepts :
    (P : Args → Type 0) (c : Kind) (f_flag : (Args → Args) → Parsed)
    (f_number : (ℕ → Args → Args) → Parsed) (at_pin : Parsed)
    → Keeps c
    → ((f : Args → Args) → Keeps (flag f) → Accepts P (f_flag f))
    → ((f : ℕ → Args → Args) → Keeps (number f) → Accepts P (f_number f))
    → Accepts P at_pin
    → Accepts P (on_kind c f_flag f_number at_pin)
on_kind-Accepts P help f_flag f_number at_pin k h1 h2 h3 = tt
on_kind-Accepts P unknown f_flag f_number at_pin k h1 h2 h3 = tt
on_kind-Accepts P (flag f) f_flag f_number at_pin k h1 h2 h3 = h1 f k
on_kind-Accepts P (number f) f_flag f_number at_pin k h1 h2 h3 = h2 f k
on_kind-Accepts P pin f_flag f_number at_pin k h1 h2 h3 = h3

abbrev Chosen : Args → Type 0
Chosen a = IsChosen a.method

keep : (a b : Args) → b.method ≡ a.method → Chosen a → Chosen b
keep a b e h = λ m. h (sym e ∙ m)

parse_loop-IsChosen :
    (argv : List (List ℕ)) (a : Args) → Chosen a → Accepts Chosen (parse_loop argv a)
unfolding parse_loop
parse_loop-IsChosen [] a h = h
parse_loop-IsChosen (s ∷ []) a h =
    on_kind-Accepts Chosen (kind_in options s) _ _ _ (kind_in-Keeps options options-Keeps s)
      (λ f k. k a h) (λ f k. tt) tt
parse_loop-IsChosen (s ∷ v ∷ []) a h =
    on_kind-Accepts Chosen (kind_in options s) _ _ _ (kind_in-Keeps options options-Keeps s)
      (λ f k. parse_loop-IsChosen (v ∷ []) (f a) (k a h))
      (λ f k. keep a (f (atoi v) a) (k (atoi v) a) h) tt
parse_loop-IsChosen (s ∷ v ∷ w ∷ rest) a h =
    on_kind-Accepts Chosen (kind_in options s) _ _ _ (kind_in-Keeps options options-Keeps s)
      (λ f k. parse_loop-IsChosen (v ∷ w ∷ rest) (f a) (k a h))
      (λ f k.
        parse_loop-IsChosen (w ∷ rest) (f (atoi v) a) (keep a (f (atoi v) a) (k (atoi v) a) h))
      (set_pin-Accepts Chosen (atoi v) (atoi w) a (parse_loop rest)
        (λ b e. parse_loop-IsChosen rest b (keep a b e h)))

-- how the method and the number of pauses fit
abbrev pub IsPaused : Method → ℕ → Type 0
IsPaused spin_pause p = p ≡ 0
IsPaused spin_pause_more p = 0 < p
IsPaused _ p = Unit

with_pauses-IsPaused : (m : Method) (p : ℕ) → IsChosen m → IsPaused (with_pauses m p) p
with_pauses-IsPaused spin_pause p h = elim (Bool-cases (p == 0)) [
  | inl no_pause ↦ rw no_pause (ground arith)
  | inr some_pause ↦ rw some_pause (ground arith)
]
with_pauses-IsPaused spin_pause_more p h = absurd (h refl)
with_pauses-IsPaused _ p h = tt

abbrev pub IsUsable : Args → Type 0
IsUsable a = (0 < a.n) × (0 < a.k) × IsPaused a.method a.p

set_defaults-IsUsable : (a : Args) → Chosen a → IsUsable (set_defaults a)
unfolding set_defaults
set_defaults-IsUsable a h = (ground arith, ground arith, with_pauses-IsPaused a.method a.p h)

with_defaults-Accepts : (r : Parsed) → Accepts Chosen r → Accepts IsUsable (with_defaults r)
unfolding with_defaults
with_defaults-Accepts (accepted a) h = set_defaults-IsUsable a h
with_defaults-Accepts refused h = tt
with_defaults-Accepts helped h = tt
with_defaults-Accepts exited h = tt

-- Accepted arguments have numbers of iterations and of pauses before a store that are not 0; the
-- method with one pause after a load comes with no number of pauses, and the method with more
-- pauses with a number that is not 0.
pub parse_args-IsUsable :
    (argv : List (List ℕ)) (a : Args) → parse_args argv ≡ accepted a → IsUsable a
unfolding parse_args
parse_args-IsUsable argv a h =
    let chosen = parse_loop-IsChosen argv no_args (λ e. cc) in
    subst (Accepts IsUsable) h (with_defaults-Accepts (parse_loop argv no_args) chosen)
