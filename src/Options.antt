-- ===== src/Options.antt =====
-- src/main.c, `parse_args` and `print_usage`: the command line of the program.
pub mod Effect
use sib_tcp.Prelude.{
  ℕ, zero, suc, length, ◌≡◌, refl, ℤ, pos, Bool, List, [], ◌∷◌, Bytes, codes, bytes_eq, ◌||◌,
  if◌then◌else◌,
}

-- The globals `port` and `subwakefr`, with SIB_PORT_DFLT and SUBWAKEFREQ.
pub record Settings : Type 0 where
  pub port : ℤ
  pub subwakefr : ℤ

abbrev pub defaults : Settings
defaults = record { port = pos 10010; subwakefr = pos 10 }

-- How the parsing ends: it returns, or the program exits with a status.
pub data Parsed : Type 0 where
  returns : Settings → Parsed
  exits : ℤ → Parsed

abbrev pub is_port : Bytes → Bool
is_port a = bytes_eq a (codes "--port") || bytes_eq a (codes "-p")

abbrev pub is_wake : Bytes → Bool
is_wake a = bytes_eq a (codes "-sub-wake-fr")

abbrev pub is_help : Bytes → Bool
is_help a = bytes_eq a (codes "--help") || bytes_eq a (codes "-h")

module _ (atoi : Bytes → ℤ) where
  -- The three `if`s on `argv[i]` and what follows it. The first moves on to the argument's value,
  -- and the second and third then test that value; so does the third after the second.
  unfoldable pub help_or : Bytes → List Bytes → Settings → (List Bytes → Settings → Parsed) → Parsed
  help_or a rest set next = if is_help a then exits (pos 0) else next rest set

  -- The test for `-sub-wake-fr` and what it does with the arguments behind `a`.
  unfoldable pub wake_or : Bytes → List Bytes → Settings → (List Bytes → Settings → Parsed) → Parsed
  unfolding help_or
  wake_or a [] set next = if is_wake a then exits (pos 1) else help_or a [] set next
  wake_or a (v ∷ rest) set next =
      if is_wake a
      then help_or v rest (record set { subwakefr = atoi v }) next
      else help_or a (v ∷ rest) set next

  unfoldable pub port_or : Bytes → List Bytes → Settings → (List Bytes → Settings → Parsed) → Parsed
  unfolding wake_or
  port_or a [] set next = if is_port a then exits (pos 1) else wake_or a [] set next
  port_or a (v ∷ rest) set next =
      if is_port a
      then wake_or v rest (record set { port = atoi v }) next
      else wake_or a (v ∷ rest) set next

  -- The loop over the arguments that are left. Each round takes at least one.
  unfoldable pub parse_rounds : ℕ → List Bytes → Settings → Parsed
  unfolding port_or
  parse_rounds fuel [] set = returns set
  parse_rounds zero (a ∷ rest) set = returns set
  parse_rounds (suc fuel) (a ∷ rest) set = port_or a rest set (parse_rounds fuel)

  -- The arguments are `argv[1]` to the last.
  unfoldable pub parse_args : List Bytes → Parsed
  unfolding parse_rounds
  parse_args args = parse_rounds (length args) args defaults

-- A value is taken for an option too: here the help is shown, and 7 is not a port.
help_for_a_port : parse_args (λ _. pos 7) (codes "-p" ∷ codes "-h" ∷ []) ≡ exits (pos 0)
unfolding parse_args bytes_eq
help_for_a_port = refl
