-- ===== src/Shell.antt =====
-- The input line of the shell, src/kernel/shell.cpp, and the keyboard, src/drivers/keyboard.cpp, which
-- gives it its characters. The commands are the operation `execute`, of the buffer with the line.
pub mod Line
pub mod Keyboard
mod Examples
use trieternal_x_os.Base.{
  ℕ, zero, suc, ◌+◌, ◌-◌, Bool, List, [], ◌∷◌, ltb, leb, ◌&&◌, ◌==◌, if◌then◌else◌, update,
}
use trieternal_x_os.Base.Words.{add32, mul32}

-- `shell_buffer` and its index; `sys` is the state of the rest of the system.
pub record Shell (S : Type 0) : Type 0 where
  pub shell_buffer : ℕ → ℕ
  pub shell_buffer_index : ℕ
  pub sys : S

-- `VGA::terminal.putchar`, `shell_execute` and `shell_prompt`.
pub record Commands (S : Type 0) : Type 0 where
  pub putchar : ℕ → S → S
  pub execute : (ℕ → ℕ) → S → S
  pub prompt : S → S

-- The loop of `shell_init`, for `n` bytes from `i` on.
unfoldable pub zero_buffer : ℕ → ℕ → (ℕ → ℕ) → ℕ → ℕ
zero_buffer zero i buffer = buffer
zero_buffer (suc n) i buffer = zero_buffer n (i + 1) (update buffer i 0)

-- `my_atoi`, of the number read so far.
unfoldable pub atoi_from : ℕ → List ℕ → ℕ
atoi_from result [] = result
atoi_from result (c ∷ s) =
    let rest = atoi_from (add32 (mul32 result 10) (c - b'0')) s in
    if leb b'0' c && leb c b'9' then rest else result

unfoldable pub my_atoi : List ℕ → ℕ
unfolding atoi_from
my_atoi s = atoi_from 0 s

module _ {S : Type 0} where
  unfoldable pub shell_init : Shell S → Shell S
  unfolding zero_buffer
  shell_init s = record s {
    shell_buffer_index = 0;
    shell_buffer = zero_buffer 256 0 s.shell_buffer;
  }

  unfoldable pub shell_input : Commands S → ℕ → Shell S → Shell S
  shell_input ops c s =
      let ended = update s.shell_buffer s.shell_buffer_index 0 in
      let back = s.shell_buffer_index - 1 in
      if c == 10
      then record s {
        shell_buffer = ended;
        shell_buffer_index = 0;
        sys = ops.prompt (ops.execute ended (ops.putchar 10 s.sys));
      }
      else if c == 8
      then if ltb 0 s.shell_buffer_index
        then record s {
          shell_buffer = update s.shell_buffer back 0;
          shell_buffer_index = back;
          sys = ops.putchar 8 s.sys;
        }
        else s
      else if ltb s.shell_buffer_index 255
      then record s {
        shell_buffer = update s.shell_buffer s.shell_buffer_index c;
        shell_buffer_index = s.shell_buffer_index + 1;
        sys = ops.putchar c s.sys;
      }
      else s
