-- ===== src/Pingpong/Args.antt =====
-- `struct Args` and `parse_args` of pingpong.c. An `unsigned` is its 32-bit pattern.
pub mod Laws
use osjitter.Prelude.{
  ℕ, ◌+◌, ◌*◌, ◌≡◌, refl, Bool, true, false, ◌&&◌, ◌||◌, not, List, [], ◌∷◌, arith, ltb, ◌==◌,
  if◌then◌else◌,
}
use osjitter.Prelude.Text.{codes, str_eq}
use osjitter.Prelude.Words.{u32}
use osjitter.Util.Atoi.{atoi}

pub data Method : Type 0 where
  spin spin_pause spin_pause_more cond_var null pipe futex semaphore : Method

pub record Args : Type 0 where
  pub tsc_khz : ℕ
  pub mult : ℕ
  pub shift : ℕ
  pub n : ℕ
  pub k : ℕ
  pub p : ℕ
  -- `pin[0]` and `pin[1]`
  pub pin0 : ℕ
  pub pin1 : ℕ
  pub json : Bool
  pub method : Method

-- `(const Args){0}`
abbrev pub no_args : Args
no_args = record {
  tsc_khz = 0;
  mult = 0;
  shift = 0;
  n = 0;
  k = 0;
  p = 0;
  pin0 = 0;
  pin1 = 0;
  json = false;
  method = spin;
}

-- What an argument is: the chain of `strcmp` tests.
pub data Kind : Type 0 where
  help unknown pin : Kind
  -- an option without an argument
  flag : (Args → Args) → Kind
  -- an option with a number
  number : (ℕ → Args → Args) → Kind

abbrev with_method : Method → Kind
with_method m = flag (λ a. record a { method = m })

-- the tests in their order, with what they ask for
abbrev pub options : List (List ℕ × Kind)
options =
    (codes "-h", help)
    ∷ (codes "--help", help)
    ∷ (codes "--khz", number (λ v a. record a { tsc_khz = v }))
    ∷ (codes "-n", number (λ v a. record a { n = v }))
    ∷ (codes "-k", number (λ v a. record a { k = v }))
    ∷ (codes "-p", number (λ v a. record a { p = v }))
    ∷ (codes "--pin", pin)
    ∷ (codes "--json", flag (λ a. record a { json = true }))
    ∷ (codes "--spin", with_method spin)
    ∷ (codes "--spin-pause", with_method spin_pause)
    ∷ (codes "--cv", with_method cond_var)
    ∷ (codes "--null", with_method null)
    ∷ (codes "--pipe", with_method pipe)
    ∷ (codes "--futex", with_method futex)
    ∷ (codes "--sem", with_method semaphore)
    ∷ []

-- the first test that succeeds
unfoldable pub kind_in : List (List ℕ × Kind) → List ℕ → Kind
kind_in [] s = unknown
kind_in ((name, kind) ∷ tests) s = if str_eq s name then kind else kind_in tests s

pub data Parsed : Type 0 where
  -- the return value -1
  refused : Parsed
  -- `exit(0)` behind the help text
  helped : Parsed
  -- `exit(1)` on an unknown argument
  exited : Parsed
  accepted : Args → Parsed

-- `--pin THREAD CPU` with both numbers; a failure leaves the loop
abbrev pub set_pin : ℕ → ℕ → Args → (Args → Parsed) → Parsed
set_pin j cpu a next =
    if ltb 1 j
    then refused
    else next (
        if j == 0 then (record a { pin0 = u32 (cpu + 1) }) else (record a { pin1 = u32 (cpu + 1) }))

-- what an argument of a kind leads to
abbrev pub on_kind :
    Kind → ((Args → Args) → Parsed) → ((ℕ → Args → Args) → Parsed) → Parsed → Parsed
on_kind help f_flag f_number at_pin = helped
on_kind unknown f_flag f_number at_pin = exited
on_kind (flag f) f_flag f_number at_pin = f_flag f
on_kind (number f) f_flag f_number at_pin = f_number f
on_kind pin f_flag f_number at_pin = at_pin

-- the `for` loop over the arguments behind `argv[0]`
unfoldable pub parse_loop : List (List ℕ) → Args → Parsed
unfolding kind_in
parse_loop [] a = accepted a
parse_loop (s ∷ []) a = on_kind (kind_in options s) (λ f. accepted (f a)) (λ f. refused) refused
parse_loop (s ∷ v ∷ []) a =
    on_kind (kind_in options s) (λ f. parse_loop (v ∷ []) (f a)) (λ f. accepted (f (atoi v) a))
      refused
parse_loop (s ∷ v ∷ w ∷ rest) a =
    on_kind (kind_in options s) (λ f. parse_loop (v ∷ w ∷ rest) (f a))
      (λ f. parse_loop (w ∷ rest) (f (atoi v) a)) (set_pin (atoi v) (atoi w) a (parse_loop rest))

-- what follows the loop
abbrev pub with_pauses : Method → ℕ → Method
with_pauses spin_pause p = if p == 0 then spin_pause else spin_pause_more
with_pauses m p = m

unfoldable pub set_defaults : Args → Args
set_defaults a = record a {
  n = if a.n == 0 then 1000000 else a.n;
  k = if a.k == 0 then 1000 else a.k;
  method = with_pauses a.method a.p;
}

unfoldable pub with_defaults : Parsed → Parsed
unfolding set_defaults
with_defaults (accepted a) = accepted (set_defaults a)
with_defaults r = r

unfoldable pub parse_args : List (List ℕ) → Parsed
unfolding parse_loop with_defaults
parse_args argv = with_defaults (parse_loop argv no_args)

parse_args_runs :
    parse_args
      (codes "--pin" ∷ codes "1" ∷ codes "3" ∷ codes "--spin-pause" ∷ codes "-p" ∷ codes "7" ∷ [])
    ≡ accepted (record no_args { n = 1000000; k = 1000; p = 7; pin1 = 4; method = spin_pause_more })
unfolding parse_args atoi
parse_args_runs = refl
