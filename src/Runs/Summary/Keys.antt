-- ===== src/Runs/Summary/Keys.antt =====
-- runs.py: the stacks and the repeats that are read off the keys of a cell's executions.
use where_to_tls.Base.{
  ℕ, String, ◌≡◌, refl, true, ◌&&◌, ◌==◌, List, [], ◌∷◌, contains, any, arith, string_eq, nat_eq,
  pair_eq,
}
use where_to_tls.Config.{Stack, stack_eq}
use where_to_tls.Runs.Summary.{ExecutionKey, SummaryExecution}
use where_to_tls.Runs.Summary.Groups.{stacks_of, repeats_of}

pub same_key :
    (k : ExecutionKey) (scenario : String) (stack : Stack) (repeat : ℕ)
    → ((scenario, (stack, repeat)) == k) ≡ ((k.0 == scenario && k.1.0 == stack) && repeat == k.1.1)
unfolding pair_eq
same_key k scenario stack repeat = ground arith

pub contains-repeats_of :
    (ks : List ExecutionKey) (scenario : String) (stack : Stack) (repeat : ℕ)
    → contains (repeats_of ks scenario stack) repeat ≡ contains ks (scenario, (stack, repeat))
contains-repeats_of [] scenario stack repeat = refl
contains-repeats_of (k ∷ ks) scenario stack repeat =
    ground (arith, contains-repeats_of ks scenario stack repeat, same_key k scenario stack repeat)

pub contains-stacks_of :
    (ks : List ExecutionKey) (scenario : String) (stack : Stack) (repeat : ℕ)
    → contains ks (scenario, (stack, repeat)) ≡ true
    → contains (stacks_of ks scenario) stack ≡ true
contains-stacks_of [] scenario stack repeat h = cc
contains-stacks_of (k ∷ ks) scenario stack repeat h =
    ground (arith, contains-stacks_of ks scenario stack repeat, same_key k scenario stack repeat)

pub any-scenario :
    (ks : List ExecutionKey) (scenario : String) (stack : Stack) (repeat : ℕ)
    → contains ks (scenario, (stack, repeat)) ≡ true
    → any (λ k. k.0 == scenario) ks ≡ true
any-scenario [] scenario stack repeat h = cc
any-scenario (k ∷ ks) scenario stack repeat h =
    ground (arith, any-scenario ks scenario stack repeat, same_key k scenario stack repeat)

abbrev pub three : List ℕ
three = 0 ∷ 1 ∷ 2 ∷ []

-- An execution has the repeat of its key.
abbrev pub SameRepeat : ExecutionKey × SummaryExecution → Type 0
SameRepeat item = item.0.1.1 ≡ item.1.repeat
