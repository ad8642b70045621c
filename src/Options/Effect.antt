-- ===== src/Options/Effect.antt =====
-- What a command line does to the settings.
use sib_tcp.Prelude.{
  ℕ, zero, suc, ◌≤◌, ◌≡◌, refl, ◌∙◌, Bool, true, false, List, [], ◌∷◌, ℤ, pos, Bytes, codes,
  bytes_eq, length, foldl, All, arith,
}
use sib_tcp.Options.{
  Settings, defaults, Parsed, returns, exits, is_port, is_wake, is_help, port_or, parse_rounds,
  parse_args,
}

-- A setting on the command line, or a word that is no option. The flags say which of the two
-- spellings is used.
pub data Setting : Type 0 where
  port_is : (long : Bool) (value : Bytes) → Setting
  wakes_are : (value : Bytes) → Setting
  word : Bytes → Setting

-- How a command line ends: there it is, or help is asked for, or an option lacks its value.
pub data Ending : Type 0 where
  ended : Ending
  helped : (long : Bool) (rest : List Bytes) → Ending
  no_port : (long : Bool) → Ending
  no_wakes : Ending

abbrev port_name : Bool → Bytes
port_name true = codes "--port"
port_name false = codes "-p"

abbrev help_name : Bool → Bytes
help_name true = codes "--help"
help_name false = codes "-h"

abbrev wake_name : Bytes
wake_name = codes "-sub-wake-fr"

-- The arguments, as one writes them.
unfoldable pub command_line : List Setting → Ending → List Bytes
command_line [] ended = []
command_line [] (helped long rest) = help_name long ∷ rest
command_line [] (no_port long) = port_name long ∷ []
command_line [] no_wakes = wake_name ∷ []
command_line (port_is long v ∷ l) e = port_name long ∷ v ∷ command_line l e
command_line (wakes_are v ∷ l) e = wake_name ∷ v ∷ command_line l e
command_line (word v ∷ l) e = v ∷ command_line l e

-- The text is none of the options.
abbrev Plain : Bytes → Type 0
Plain v = (is_port v ≡ false) × (is_wake v ≡ false) × (is_help v ≡ false)

abbrev pub IsPlain : Setting → Type 0
IsPlain (port_is long v) = Plain v
IsPlain (wakes_are v) = Plain v
IsPlain (word v) = Plain v

-- What it means.
abbrev pub verdict : Ending → Settings → Parsed
verdict ended set = returns set
verdict (helped long rest) set = exits (pos 0)
verdict (no_port long) set = exits (pos 1)
verdict no_wakes set = exits (pos 1)

module _ (atoi : Bytes → ℤ) where
  abbrev pub set_by : Settings → Setting → Settings
  set_by set (port_is long v) = record set { port = atoi v }
  set_by set (wakes_are v) = record set { subwakefr = atoi v }
  set_by set (word v) = set

  module _ (next : List Bytes → Settings → Parsed) (set : Settings) where
    port_or-word : (v : Bytes) (l : List Bytes) → Plain v → port_or atoi v l set next ≡ next l set
    unfolding port_or
    port_or-word v [] (a, b, c) = rw (a, b, c) refl
    port_or-word v (x ∷ l) (a, b, c) = rw (a, b, c) refl

    port_or-port :
        (long : Bool) (v : Bytes) (l : List Bytes)
        → Plain v
        → port_or atoi (port_name long) (v ∷ l) set next ≡ next l (record set { port = atoi v })
    unfolding port_or bytes_eq
    port_or-port true v [] (a, b, c) = rw (b, c) refl
    port_or-port true v (x ∷ l) (a, b, c) = rw (b, c) refl
    port_or-port false v [] (a, b, c) = rw (b, c) refl
    port_or-port false v (x ∷ l) (a, b, c) = rw (b, c) refl

    port_or-wake :
        (v : Bytes) (l : List Bytes)
        → Plain v
        → port_or atoi wake_name (v ∷ l) set next ≡ next l (record set { subwakefr = atoi v })
    unfolding port_or bytes_eq
    port_or-wake v l (a, b, c) = rw c refl

    port_or-help :
        (long : Bool) (l : List Bytes) → port_or atoi (help_name long) l set next ≡ exits (pos 0)
    unfolding port_or bytes_eq
    port_or-help true [] = refl
    port_or-help true (x ∷ l) = refl
    port_or-help false [] = refl
    port_or-help false (x ∷ l) = refl

  parse_rounds-command_line :
      (l : List Setting) (e : Ending) (fuel : ℕ) (set : Settings)
      → All IsPlain l
      → length (command_line l e) ≤ fuel
      → parse_rounds atoi fuel (command_line l e) set ≡ verdict e (foldl set_by set l)
  unfolding command_line parse_rounds bytes_eq
  parse_rounds-command_line [] ended fuel set h k = refl
  parse_rounds-command_line [] _ zero set h k = absurd (omega (arith, k))
  parse_rounds-command_line [] (helped true rest) (suc fuel) set h k =
      port_or-help (parse_rounds atoi fuel) set true rest
  parse_rounds-command_line [] (helped false rest) (suc fuel) set h k =
      port_or-help (parse_rounds atoi fuel) set false rest
  parse_rounds-command_line [] (no_port true) (suc fuel) set h k = refl
  parse_rounds-command_line [] (no_port false) (suc fuel) set h k = refl
  parse_rounds-command_line [] no_wakes (suc fuel) set h k = refl
  parse_rounds-command_line (port_is long v ∷ l) e (suc fuel) set h k =
      port_or-port (parse_rounds atoi fuel) set long v (command_line l e) h.0
      ∙ parse_rounds-command_line l e fuel _ h.1 (omega (arith, k))
  parse_rounds-command_line (wakes_are v ∷ l) e (suc fuel) set h k =
      port_or-wake (parse_rounds atoi fuel) set v (command_line l e) h.0
      ∙ parse_rounds-command_line l e fuel _ h.1 (omega (arith, k))
  parse_rounds-command_line (word v ∷ l) e (suc fuel) set h k =
      port_or-word (parse_rounds atoi fuel) set v (command_line l e) h.0
      ∙ parse_rounds-command_line l e fuel _ h.1 (omega (arith, k))
  parse_rounds-command_line (port_is long v ∷ l) e zero set h k = absurd (omega (arith, k))
  parse_rounds-command_line (wakes_are v ∷ l) e zero set h k = absurd (omega (arith, k))
  parse_rounds-command_line (word v ∷ l) e zero set h k = absurd (omega (arith, k))

  -- A command line of settings and of words that are no option, whose values are not spelled like
  -- options either, with any of the four endings: the last port and the last frequency that are
  -- given hold, with the defaults for what is not given; a request for help ends the program with
  -- status 0, whatever stands behind it, and an option that lacks its value with status 1.
  pub parse_args-command_line :
      (l : List Setting) (e : Ending)
      → All IsPlain l
      → parse_args atoi (command_line l e) ≡ verdict e (foldl set_by defaults l)
  unfolding parse_args
  parse_args-command_line l e h =
      parse_rounds-command_line l e (length (command_line l e)) defaults h (omega arith)
