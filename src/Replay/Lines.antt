-- ===== src/Replay/Lines.antt =====
-- loadLogCsv and parseLogLine of ReplayEngine (core/replay_engine.cpp). A text is the list of its
-- characters; strtoull, of which the engine asks the value and the rest of the text, is a parameter.
use signal_scope_api.Base.{
  same_text, reversed_onto, ℕ, zero, suc, ◌+◌, Bool, true, false, not, ◌&&◌, ◌||◌, ltb, leb, ◌==◌,
  if◌then◌else◌, ◌>>=◌, Option, none, some, List, [], ◌∷◌, length, take, Array, store,
}
use signal_scope_api.Frame.{Bytes, Direction, a_to_b, b_to_a, sub_u32, u8, u32, u32_max}
use signal_scope_api.Replay.{ReplayFrame, ReplayEngine, ReplayDispatchMode, max_replay_frames}

-- Blanks and tabs at the front, and at both ends.
abbrev is_blank : ℕ → Bool
is_blank c = (c == 32) || (c == 9)

abbrev skip_blanks : List ℕ → List ℕ
skip_blanks [] = []
skip_blanks (c ∷ cs) = if is_blank c then skip_blanks cs else c ∷ cs

unfoldable pub trim : List ℕ → List ℕ
trim text = reversed_onto (skip_blanks (reversed_onto (skip_blanks text) [])) []

-- strtok_r with ",": the runs of other characters, of which `run` is the current one, reversed.
abbrev keep_run : List ℕ → List (List ℕ) → List (List ℕ)
keep_run [] tokens = tokens
keep_run (c ∷ cs) tokens = reversed_onto (c ∷ cs) [] ∷ tokens

unfoldable pub split_commas : List ℕ → List ℕ → List (List ℕ)
split_commas run [] = keep_run run []
split_commas run (c ∷ cs) =
    let rest = split_commas (if c == 44 then [] else c ∷ run) cs in
    if c == 44 then keep_run run rest else rest

abbrev token : List (List ℕ) → ℕ → List ℕ
token [] i = []
token (t ∷ ts) zero = trim t
token (t ∷ ts) (suc i) = token ts i

-- "A_TO_B" and "B_TO_A"
unfoldable pub parse_direction : List ℕ → Direction → Direction
parse_direction text fallback =
    if same_text text (65 ∷ 95 ∷ 84 ∷ 79 ∷ 95 ∷ 66 ∷ [])
    then a_to_b
    else if same_text text (66 ∷ 95 ∷ 84 ∷ 79 ∷ 95 ∷ 65 ∷ [])
    then b_to_a
    else fallback

abbrev first_char : List ℕ → ℕ
first_char [] = 0
first_char (c ∷ cs) = c

-- What loadLogCsv keeps from line to line.
pub record Loading : Type 0 where
  pub frames : Array ReplayFrame
  pub frame_count : ℕ
  pub previous_ts : ℕ
  pub first_line : Bool
  pub success : Bool

abbrev add_frame : Loading → Option ReplayFrame → Loading
add_frame l none = record l { success = false }
add_frame l (some f) =
    let kept = if l.first_line then record f { delta_us = 0 } else f in
    record l {
      frames = store l.frames l.frame_count kept;
      frame_count = l.frame_count + 1;
      previous_ts = f.frame.timestamp_us;
      first_line = false;
    }

-- A C string ends at its first character 0.
abbrev before_zero : List ℕ → List ℕ
before_zero [] = []
before_zero (c ∷ cs) = if c == 0 then [] else c ∷ before_zero cs

-- strtoull: a text and a base to the value and the rest of the text.
module _ (strtoull : List ℕ → ℕ → ℕ × List ℕ) where
  -- A number that takes the whole text; one that takes nothing leaves all of it.
  unfoldable pub parse_unsigned_token : List ℕ → ℕ → ℕ → Option ℕ
  parse_unsigned_token text base maximum =
      let (v, end) = strtoull text base in
      if (first_char text == 0) || (first_char text == 45)
      then none
      else if not (length end == 0) || ltb maximum v
      then none
      else some (u32 v)

  -- The bytes from token `3 + i` on.
  abbrev parse_bytes : List (List ℕ) → ℕ → ℕ → Bytes → Option Bytes
  parse_bytes tokens zero i bytes = some bytes
  parse_bytes tokens (suc left) i bytes =
      parse_unsigned_token (token tokens (3 + i)) 16 0xFF >>= λ v.
      parse_bytes tokens left (i + 1) (store bytes i (u8 v))

  unfoldable pub parse_log_line : List ℕ → ℕ → Direction → Option ReplayFrame
  unfolding split_commas trim parse_direction parse_unsigned_token
  parse_log_line line previous_ts default_direction =
      let tokens = take 13 (split_commas [] (take 255 (before_zero line))) in
      if ltb (length tokens) 11 then none else do
        timestamp_us ← parse_unsigned_token (token tokens 0) 10 u32_max
        can_id ← parse_unsigned_token (token tokens 1) 0 0x1FFFFFFF
        dlc ← parse_unsigned_token (token tokens 2) 10 8
        bytes ← parse_bytes tokens 8 0 (λ i. 0)
        some (record {
          frame = record {
            id = can_id;
            dlc = u8 dlc;
            bytes = bytes;
            timestamp_us = timestamp_us;
            direction =
                if leb 12 (length tokens)
                then parse_direction (token tokens 11) default_direction
                else default_direction;
          };
          delta_us = sub_u32 timestamp_us previous_ts;
        })

  -- A line that is not empty.
  unfoldable pub load_line : Direction → List ℕ → Loading → Loading
  unfolding parse_log_line
  load_line default_direction line l =
      if first_char line == 0
      then l
      else if leb max_replay_frames l.frame_count
      then record l { success = false }
      else add_frame l (parse_log_line line l.previous_ts default_direction)

  -- The loop over the characters, with the line so far, reversed, and its length.
  unfoldable pub load_text : Direction → List ℕ → List ℕ → ℕ → Loading → Loading
  unfolding load_line
  load_text default_direction [] line line_len l =
      load_line default_direction (reversed_onto line []) l
  load_text default_direction (c ∷ cs) line line_len l =
      let done = c == 10 in
      let kept = not (c == 13) && ltb (line_len + 1) 256 in
      load_text default_direction cs (if done then [] else if kept then c ∷ line else line)
        (if done then 0 else if kept then line_len + 1 else line_len)
        (if done then load_line default_direction (reversed_onto line []) l else l)

  -- A null text is left out.
  unfoldable pub load_log_csv :
      List ℕ → Direction → ReplayDispatchMode → ReplayEngine → Bool × ReplayEngine
  unfolding load_text
  load_log_csv text default_direction dispatch_mode e =
      let reset = record e { frame_count = 0; cursor = 0; dispatch_mode = dispatch_mode } in
      let l = load_text default_direction text [] 0 (record {
        frames = e.frames;
        frame_count = 0;
        previous_ts = 0;
        first_line = true;
        success = true;
      }) in
      if length text == 0 then (false, reset) else (
        l.success && ltb 0 l.frame_count,
        record reset { frames = l.frames; frame_count = l.frame_count },
      )
