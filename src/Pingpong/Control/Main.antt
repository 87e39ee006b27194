-- ===== src/Pingpong/Control/Main.antt =====
-- How `main` of pingpong.c gets at the frequency and the scaling factors.
use osjitter.Prelude.{ℕ, ◌<◌, ◌≡◌, ◌⊎◌, inl, inr, refl, some, ◌==◌, Bool-cases, arith}
use osjitter.Util.Khz
use osjitter.Util.Khz.{Run, SysFile, Pipe, get_tsc_khz}
use osjitter.Util.Khz.Sources.{IsAnswer, get_tsc_khz-IsAnswer}
use osjitter.Util.Scale.{clocks_calc_mult_shift}
use osjitter.Util.Scale.Error.{calc_zero}
use osjitter.Pingpong.Args.{Args, Parsed, refused, helped, exited, accepted}
use osjitter.Pingpong.Control.{Played, Ended, crashed, stopped, played, with_khz, on_khz, main}

-- The arguments with a frequency that is not 0, and the factors that belong to it.
abbrev pub IsScaled : Args → Args → Type 0
IsScaled args args' =
    (mult shift khz : ℕ) × (0 < khz)
    × (clocks_calc_mult_shift khz 1000000 0 ≡ some (mult, shift))
    × (args' ≡ record args { tsc_khz = khz; mult = mult; shift = shift })

-- The program stops with 0 behind the help text and 1 on an error, or it plays.
abbrev pub IsEnded : Parsed → (Args → Played) → Ended → Type 0
IsEnded p play crashed = ⊥
IsEnded p play (stopped status) = ((p ≡ helped) × (status ≡ 0)) ⊎ (status ≡ 1)
IsEnded p play (played args' r) =
    (args : Args) × (p ≡ accepted args) × IsScaled args args' × (r ≡ play args')

with_khz-IsEnded :
    (args : Args) (play : Args → Played) (khz : ℕ)
    → 0 < khz
    → IsEnded (accepted args) play (with_khz args play khz)
unfolding with_khz
with_khz-IsEnded args play khz known =
    let e = calc_zero khz known in rw (IsEnded, e) (args, refl, (_, _, khz, known, e, refl), refl)

on_khz-IsEnded :
    (args : Args) (play : Args → Played) (r : Run)
    → IsAnswer r
    → IsEnded (accepted args) play (on_khz args play r)
on_khz-IsEnded args play Khz.out_of_bounds h = absurd h
on_khz-IsEnded args play (Khz.returned r khz) (inr negative) = rw negative (inr refl)
on_khz-IsEnded args play (Khz.returned r khz) (inl (zero_, known)) =
    rw zero_ (with_khz-IsEnded args play khz known)

-- Whatever the sources of the frequency do, the program does not crash: it stops with 0 behind the help
-- text, stops with 1, or plays with the arguments it was given, a frequency that is not 0 and the
-- scaling factors of that frequency.
pub main-IsEnded :
    (p : Parsed) (file : SysFile) (journal dmesg : Pipe) (play : Args → Played)
    → IsEnded p play (main p (get_tsc_khz file journal dmesg) play)
unfolding main
main-IsEnded refused file journal dmesg play = inr refl
main-IsEnded helped file journal dmesg play = inl (refl, refl)
main-IsEnded exited file journal dmesg play = inr refl
main-IsEnded (accepted args) file journal dmesg play = elim (Bool-cases (args.tsc_khz == 0)) [
  | inl unknown ↦ rw unknown (
      on_khz-IsEnded args play (get_tsc_khz file journal dmesg)
        (get_tsc_khz-IsAnswer file journal dmesg))
  | inr given ↦ rw given (with_khz-IsEnded args play args.tsc_khz (ground (arith, given)))
]
