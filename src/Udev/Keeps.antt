-- ===== src/Udev/Keeps.antt =====
-- Invariants of the checker's state: what a predicate has to be closed under so that every check of
-- a pair, every action of the grammar and the whole program keep it.
pub mod Tokens
pub mod Pairs
pub mod Program
use make_initrd.Prelude.{ℕ, ◌≡◌, Bool, Option, none, some}
use make_initrd.Udev.State.{Pos, Message, Warn, RulesState, log_error, log_warning}
use make_initrd.Udev.Options.{Progress, going, exited, crashed}

-- Two states agree in what the reports have written, and in the warnings that are on.
pub record SameReports (a b : RulesState) : Type 0 where
  pub retcode : b.retcode ≡ a.retcode
  pub log : b.log ≡ a.log
  pub warnings : b.warnings ≡ a.warnings
  pub summary : b.warning_summary ≡ a.warning_summary

pub record Closed (P : RulesState → Type 0) : Type 0 where
  pub on_error :
      (file : ℕ) (at : Pos) (m : Message) (st : RulesState) → P st → P (log_error file at m st)
  pub on_warning :
      (file : ℕ) (at : Pos) (m : Message) (w : Option Warn) (st : RulesState)
      → P st
      → P (log_warning file at m w st)
  pub on_same : (a b : RulesState) → SameReports a b → P a → P b

abbrev pub Maybe : (RulesState → Type 0) → Option RulesState → Type 0
Maybe P none = Unit
Maybe P (some st) = P st

abbrev pub Goes : (RulesState → Type 0) → Progress → Type 0
Goes P (going st) = P st
Goes P (exited n) = Unit
Goes P crashed = Unit
