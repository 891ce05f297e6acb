-- ===== src/Lexer/Mode.antt =====
-- The quoting modes of lexer.c and `__lexmode`, which moves between them.
use Prim.Native.Nat.{ℕ}
use epita_42sh.Base.{Bool, true, false, not, ◌&&◌, ◌||◌, if◌then◌else◌, ◌==◌}

-- The LEX_MODE bits. LEX_MODE_ARITH_EXP is never set.
pub record LexMode : Type 0 where
  pub squote : Bool
  pub dquote : Bool
  pub backslash : Bool
  pub dollar : Bool
  pub cmd_sub : Bool
  pub param_exp : Bool

abbrev pub no_mode : LexMode
no_mode = record {
  squote = false;
  dquote = false;
  backslash = false;
  dollar = false;
  cmd_sub = false;
  param_exp = false;
}

abbrev xor : Bool → Bool → Bool
xor true b = not b
xor false b = b

unfoldable pub mode_xor : LexMode → LexMode → LexMode
mode_xor a b = record {
  squote = xor a.squote b.squote;
  dquote = xor a.dquote b.dquote;
  backslash = xor a.backslash b.backslash;
  dollar = xor a.dollar b.dollar;
  cmd_sub = xor a.cmd_sub b.cmd_sub;
  param_exp = xor a.param_exp b.param_exp;
}

-- Whether a mode other than LEX_MODE_DOLLAR is set.
unfoldable pub other_mode : LexMode → Bool
other_mode m = m.squote || (m.dquote || (m.backslash || (m.cmd_sub || m.param_exp)))

-- `mode != 0`
unfoldable pub any_mode : LexMode → Bool
unfolding other_mode
any_mode m = other_mode m || m.dollar

-- `TOKEN_DELIM`: `strchr` finds the NUL at the end of its string too.
token_delim : ℕ → Bool
token_delim c =
    c == b'|'
    || (c == b'&'
        || (c == b';'
            || (c == b'('
                || (c == b')'
                    || (c == b'<'
                        || (c == b'>' || (c == 32 || (c == 9 || (c == 10 || c == 0)))))))))

-- `LEX_WORD_BREAK`
unfoldable pub word_break : LexMode → ℕ → Bool
unfolding token_delim any_mode other_mode
word_break mode c =
    (not (any_mode mode)
      || (mode.dollar && (not (other_mode mode) && (not (c == b'(') && not (c == b')')))))
    && token_delim c

-- `__lexmode`
unfoldable pub lexmode : ℕ → LexMode → LexMode
lexmode c mode =
    if mode.backslash
    then record mode { backslash = false }
    else if c == 92 && not mode.squote
    then record mode { backslash = true; dollar = false }
    else if c == 39 && not mode.dquote
    then record mode { squote = not mode.squote; dollar = false }
    else if c == b'"' && not mode.squote
    then record mode { dquote = not mode.dquote; dollar = false }
    else if c == b'`' && not mode.squote
    then record mode { cmd_sub = not mode.cmd_sub; dollar = false }
    else if (c == b'(' && mode.dollar) || (c == b')' && mode.cmd_sub)
    then record mode { cmd_sub = not mode.cmd_sub; dollar = false }
    else if (c == b'{' && mode.dollar) || (c == b'}' && mode.param_exp)
    then record mode { param_exp = not mode.param_exp; dollar = false }
    else if c == b'$' && not (mode.squote || mode.dollar)
    then record mode { dollar = true }
    else record mode { dollar = false }
