-- ===== src/Tests/Tasks.antt =====
-- The routes of the tasks over a router that compares prefixes.
use ai_developer_copilot_pla.Prelude.{
  ◌≡◌, refl, List, [], ◌∷◌, ◌++◌, Option, none, some, All, ap, arith, ◌==◌, if◌then◌else◌,
}
use ai_developer_copilot_pla.Text.{Text, codes, strip_prefix}
use ai_developer_copilot_pla.Tasks.Celery.{celery_app}
use ai_developer_copilot_pla.Tasks.Routing.{
  IsSome, patterns, IsRouter, IsServed, IsOwn, kinds, celery_app-IsServed,
}
use ai_developer_copilot_pla.Tests.App.{defaults}

-- A pattern without its last character.
abbrev unstarred : Text → Text
unstarred [] = []
unstarred (c ∷ []) = []
unstarred (c ∷ d ∷ s) = c ∷ unstarred (d ∷ s)

abbrev chosen : Option Text → Text → Option Text → Option Text
chosen none queue rest = rest
chosen (some []) queue rest = rest
chosen (some (c ∷ s)) queue rest = if c == 10 then rest else some queue

abbrev by_prefix : List (Text × Text) → Text → Option Text
by_prefix [] name = none
by_prefix ((pattern_text, queue) ∷ routes) name =
    chosen (strip_prefix (unstarred pattern_text) name) queue (by_prefix routes name)

unstarred-append : (p : Text) → unstarred (p ++ codes "*") ≡ p
unstarred-append [] = refl
unstarred-append (c ∷ []) = refl
unstarred-append (c ∷ d ∷ p) = ap (◌∷◌ c) (unstarred-append (d ∷ p))

chosen-some :
    (s queue : Text) (rest : Option Text) → IsSome s → chosen (some s) queue rest ≡ some queue
chosen-some [] queue rest h = absurd h
chosen-some (c ∷ s) queue rest h = ground arith

by_prefix-IsRouter : IsRouter by_prefix
by_prefix-IsRouter = record {
  taken = λ p queue rest rows name plain fresh rests h.
      rw (unstarred-append p, h) (chosen-some rest queue (by_prefix (patterns rows) name) rests);
  passed = λ p queue rows name plain fresh h. rw (unstarred-append p, h);
}

celery_app-IsServed_example :
    All (IsServed by_prefix (celery_app defaults)) (celery_app defaults).packages
    × All (IsOwn by_prefix (celery_app defaults)) kinds
celery_app-IsServed_example = celery_app-IsServed by_prefix by_prefix-IsRouter defaults
