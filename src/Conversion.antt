-- ===== src/Conversion.antt =====
-- djmount/charset.c, built without iconv: the choice of the charset, its state, and the conversion
-- of a text into a buffer that grows.
pub mod Rounds
pub mod Text
pub mod Choice
pub mod Overwrite
mod Tests
use djmount.Base.{
  ℕ, zero, suc, ◌+◌, ◌-◌, ◌*◌, Bool, true, false, not, ◌&&◌, ◌||◌, List, [], ◌∷◌, ◌++◌, Option,
  none, some,
}
use djmount.Base.Lists.{Bytes, length, take, bytes_eq}
use djmount.Base.Tests.{ltb, leb, ◌==◌, if◌then◌else◌}
use djmount.Base.Text.{codes, tolower}
use djmount.Charset.{
  Tables, Conv, no_tables, ascii2utf, utf2ascii, ascii2utf_size, utf2ascii_size, init_charset,
  e2big,
}

-- <errno.h>
abbrev pub einval : ℕ
einval = 22

abbrev pub ealready : ℕ
ealready = 114

pub data GState : Type 0 where
  not_initialized initialized_utf8 initialized_not_utf8 : GState

pub data Direction : Type 0 where
  to_utf8 from_utf8 : Direction

-- `g_state` and the tables of charset_internal.c.
pub record Module : Type 0 where
  pub state : GState
  pub tables : Tables

-- A string of the environment, "name=value" with its final NUL.
pub record Variable : Type 0 where
  pub name : Bytes
  pub value : Bytes

-- The environment of the process, as the system lays it out for a new one: its strings in the order in which they lie
-- in memory, one right after the other; and what `nl_langinfo (CODESET)` gives after `setlocale (LC_ALL, "")` in an
-- environment.
pub record Env : Type 0 where
  pub variables : List Variable
  pub codeset : List Variable → Bytes

pub getenv : Bytes → List Variable → Option Bytes
getenv name [] = none
getenv name (v ∷ vs) =
    let rest = getenv name vs in if bytes_eq v.name name then some v.value else rest

abbrev pub kde_utf8_filenames : Bytes
kde_utf8_filenames = codes "KDE_UTF8_FILENAMES"

abbrev pub g_filename_encoding : Bytes
g_filename_encoding = codes "G_FILENAME_ENCODING"

abbrev pub variable_size : Variable → ℕ
variable_size v = length v.name + length v.value + 2

-- NULs over the first n bytes of variables: one that starts there is an empty string, with no name.
pub wipe : ℕ → List Variable → List Variable
wipe n [] = []
wipe n (v ∷ vs) = let rest = wipe (n - variable_size v) vs in if n == 0 then v ∷ vs else rest

-- `strncpy (s, buffer, sizeof(buffer)-1)` with an empty `buffer` and with s the value of G_FILENAME_ENCODING: 127 NULs
-- from the start of the value on. Where they pass the end of the environment, what they write is not modelled.
pub overwrite : List Variable → List Variable
unfolding wipe
overwrite [] = []
overwrite (v ∷ vs) =
    let rest = overwrite vs in
    if bytes_eq v.name g_filename_encoding
    then record v { value = [] } ∷ wipe (127 - (length v.value + 1)) vs
    else v ∷ rest

-- `strcasecmp (a, b) == 0`
pub strcaseeq : Bytes → Bytes → Bool
strcaseeq [] [] = true
strcaseeq [] (y ∷ ys) = false
strcaseeq (x ∷ xs) [] = false
strcaseeq (x ∷ xs) (y ∷ ys) = tolower x == tolower y && strcaseeq xs ys

-- `buffer[strcspn (buffer, ",;:")] = '\0'`
pub cut_list : Bytes → Bytes
cut_list [] = []
cut_list (c ∷ cs) = if c == b',' || (c == b';' || c == b':') then [] else c ∷ cut_list cs

abbrev pub is_unset : Option Bytes → Bool
is_unset none = true
is_unset (some []) = true
is_unset (some (c ∷ cs)) = false

-- Step b), and the environment after it. `strncpy (s, buffer, …)` has its arguments swapped: it reads the empty
-- `buffer` and writes to the environment, so `buffer` stays empty.
pub desktop_charset : Env → Option Bytes × List Variable
unfolding getenv overwrite cut_list
desktop_charset env = elim (getenv kde_utf8_filenames env.variables) [
  | some s ↦ (some (codes "UTF-8"), env.variables)
  | none ↦ elim (getenv g_filename_encoding env.variables) [
    | none ↦ (none, env.variables)
    | some s ↦
        let buffer : Bytes = cut_list [] in
        (
          if not (bytes_eq buffer (codes "@locale")) then some buffer else none,
          overwrite env.variables,
        )
  ]
]

-- Step d).
pub or_utf8 : Option Bytes → Bytes
or_utf8 none = codes "UTF-8"
or_utf8 (some []) = codes "UTF-8"
or_utf8 (some (c ∷ cs)) = c ∷ cs

-- The choices b), c) and d) of `Charset_Initialize`, each where the one before gave no name.
pub choose_charset : Env → Option Bytes → Bytes
unfolding desktop_charset or_utf8
choose_charset env charset =
    let (b, variables) =
      if is_unset charset then desktop_charset env else (charset, env.variables) in
    let c = if is_unset b then some (take 127 (env.codeset variables)) else b in or_utf8 c

-- `Charset_Initialize`. `fresh` is what `malloc` leaves in memory. Each call gets the environment as it then is; what it
-- does to it is the second component of `desktop_charset`.
pub initialize : (ℕ → ℕ) → Env → Option Bytes → Module → ℕ × Module
unfolding choose_charset strcaseeq
initialize fresh env charset m = elim (m.state) [
  | not_initialized ↦
      let name = choose_charset env charset in
      let (known, tables) = init_charset fresh name in
      if known == 0 then (einval, record { state = m.state; tables = tables }) else (
        0,
        record {
          state = if strcaseeq name (codes "UTF-8") then initialized_utf8 else initialized_not_utf8;
          tables = tables;
        },
      )
  | _ ↦ (ealready, m)
]

-- `Charset_IsConverting`
pub is_converting : Module → Bool
is_converting m = elim (m.state) [ initialized_not_utf8 ↦ true | _ ↦ false ]

-- `Charset_Finish`
pub finish_module : (ℕ → ℕ) → Module → ℕ × Module
finish_module fresh m = elim (m.state) [
  | not_initialized ↦ (ealready, m)
  | _ ↦ (0, record { state = not_initialized; tables = (init_charset fresh []).1 })
]

pub converter : Tables → Direction → Option Bytes → Option ℕ → ℕ × Conv
converter t to_utf8 = ascii2utf t
converter t from_utf8 = utf2ascii t

pub converter_size : Tables → Direction → Bytes → ℕ
converter_size t to_utf8 s = ascii2utf_size t (some s)
converter_size t from_utf8 s = utf2ascii_size t (some s)

-- What `Charset_ConvertString` returns: NULL, its argument, the caller's buffer or new memory with
-- the bytes written there. `still_running` is the end of the fuel.
pub data Result : Type 0 where
  null : Result
  original : Result
  in_buffer : Bytes → Result
  allocated : Bytes → Result
  still_running : Result

-- The memory that the output goes to.
pub data Place : Type 0 where
  callers own : Place

abbrev pub returned : Place → Bytes → Result
returned callers out = in_buffer out
returned own out = allocated out

-- The `while` loop, on fuel, and the `return` after it. `mem n` tells whether talloc has n bytes.
pub convert_loop : ℕ → (ℕ → Bool) → Tables → Direction → Place → ℕ → Bytes → Bytes → ℕ → Result
unfolding converter
convert_loop fuel mem t dir place bufsize [] out left = returned place out
convert_loop zero mem t dir place bufsize (c ∷ cs) out left = still_running
convert_loop (suc fuel) mem t dir place bufsize (c ∷ cs) out left =
    let (rc, r) = converter t dir (some (c ∷ cs)) (some left) in
    let out' = out ++ r.out in
    let incr = length r.rest * 2 in
    let go_on = convert_loop fuel mem t dir place bufsize r.rest out' r.left in
    let grown = convert_loop fuel mem t dir own (bufsize + incr) r.rest out' (r.left + incr) in
    if rc == 0
    then go_on
    else if rc == e2big
    then (if mem (bufsize + incr)
        then grown
        else elim place [ callers ↦ in_buffer out' | own ↦ null ])
    else null

-- `Charset_ConvertString`: the text, the buffer's size or `none` for no buffer. The final NUL is
-- converted with the text.
pub convert_string : (ℕ → Bool) → Module → Direction → Option Bytes → Option ℕ → Result
unfolding convert_loop converter_size
convert_string mem m dir none buffer = null
convert_string mem m dir (some str) buffer = elim (m.state) [
  | initialized_not_utf8 ↦
      let src = str ++ 0 ∷ [] in
      let needed = converter_size m.tables dir str in
      let fuel = length src in
      let fresh =
        if mem needed then convert_loop fuel mem m.tables dir own needed src [] needed else null in
      elim buffer [
        | none ↦ fresh
        | some bufsize ↦
            if ltb bufsize needed
            then fresh
            else convert_loop fuel mem m.tables dir callers bufsize src [] bufsize
      ]
  | _ ↦ original
]
