-- ===== src/Terminal/Dispatcher/Table.antt =====
-- crates/mosh-terminal/src/dispatcher.rs: the table of the routines, and `Dispatcher::dispatch`.
use rmosh.Prelude.{ℕ, Bool, true, false, ◌||◌, Option, none, some, List, [], ◌∷◌, if◌then◌else◌}
use rmosh.Terminal.Text.{text_eq, encode_utf8}
use rmosh.Terminal.Cell.{WideChars}
use rmosh.Terminal.Framebuffer.{Framebuffer}
use rmosh.Terminal.Dispatcher.{FunctionType, escape, csi, control, Dispatcher, collect}
use rmosh.Terminal.Dispatcher.Functions.{
  State, csi_el, csi_ed, csi_cursormove, csi_da, csi_sda, csi_cxt, csi_tbc, csi_decsm, csi_decrm,
  csi_sm, csi_rm, csi_decstbm, esc_decaln, ctrl_lf, ctrl_cr, ctrl_bs, ctrl_ri, ctrl_nel, ctrl_ht,
  ctrl_hts, ctrl_bel,
}
use rmosh.Terminal.Dispatcher.Editing.{
  csi_sgr, csi_dsr, csi_il, csi_dl, csi_ich, csi_dch, csi_vpa, csi_hpa, csi_ech, csi_decstr, csi_sd,
  csi_su, esc_decsc, esc_decrc, esc_ris,
}

pub record Entry : Type 0 where
  pub function : State → Option State
  pub clears_wrap_state : Bool

abbrev pub entry : (State → Option State) → Option Entry
entry function = some (record { function = function; clears_wrap_state = true })

abbrev pub entry_keeping_wrap : (State → Option State) → Option Entry
entry_keeping_wrap function = some (record { function = function; clears_wrap_state = false })

-- A key of one character below 128, and one of two.
abbrev pub is_key : List ℕ → ℕ → Bool
is_key key c = text_eq key (c ∷ [])

abbrev pub is_keys : List ℕ → ℕ → ℕ → Bool
is_keys key a b = text_eq key (a ∷ b ∷ [])

-- The arms of `lookup` for a CSI from that of `m` on.
unfoldable pub lookup_csi_from_m : List ℕ → Option Entry
lookup_csi_from_m key =
    if is_key key b'm'
    then entry_keeping_wrap csi_sgr
    else if is_key key b'n'
    then entry csi_dsr
    else if is_key key b'L'
    then entry csi_il
    else if is_key key b'M'
    then entry csi_dl
    else if is_key key b'@'
    then entry csi_ich
    else if is_key key b'P'
    then entry csi_dch
    else if is_key key b'd'
    then entry csi_vpa
    else if is_key key b'G' || is_key key 0x60
    then entry csi_hpa
    else if is_key key b'X'
    then entry csi_ech
    else if is_keys key b'!' b'p'
    then entry csi_decstr
    else if is_key key b'S'
    then entry csi_sd
    else if is_key key b'T'
    then entry csi_su
    else none

unfoldable pub lookup_csi : List ℕ → Option Entry
lookup_csi key =
    if is_key key b'K'
    then entry csi_el
    else if is_key key b'J'
    then entry csi_ed
    else if is_key key b'A'
        || is_key key b'B'
        || is_key key b'C'
        || is_key key b'D'
        || is_key key b'H'
        || is_key key b'f'
    then entry csi_cursormove
    else if is_key key b'c'
    then entry csi_da
    else if is_keys key b'>' b'c'
    then entry csi_sda
    else if is_key key b'I' || is_key key b'Z'
    then entry_keeping_wrap csi_cxt
    else if is_key key b'g'
    then entry_keeping_wrap csi_tbc
    else if is_keys key b'?' b'h'
    then entry_keeping_wrap csi_decsm
    else if is_keys key b'?' b'l'
    then entry_keeping_wrap csi_decrm
    else if is_key key b'h'
    then entry csi_sm
    else if is_key key b'l'
    then entry csi_rm
    else if is_key key b'r'
    then entry csi_decstbm
    else lookup_csi_from_m key

module _ (wide : WideChars) where
  unfoldable pub lookup_escape : List ℕ → Option Entry
  lookup_escape key =
      if is_keys key b'#' b'8'
      then entry (esc_decaln wide)
      else if is_key key b'7'
      then entry esc_decsc
      else if is_key key b'8'
      then entry esc_decrc
      else if is_key key b'c'
      then entry esc_ris
      else none

-- The characters from 0x80 on are two bytes, the first of them 194.
unfoldable pub lookup_control : List ℕ → Option Entry
lookup_control key =
    if is_key key 0x0a || is_keys key 194 0x84 || is_key key 0x0b || is_key key 0x0c
    then entry ctrl_lf
    else if is_key key 0x0d
    then entry ctrl_cr
    else if is_key key 0x08
    then entry ctrl_bs
    else if is_keys key 194 0x8d
    then entry ctrl_ri
    else if is_keys key 194 0x85
    then entry ctrl_nel
    else if is_key key 0x09
    then entry_keeping_wrap ctrl_ht
    else if is_keys key 194 0x88
    then entry ctrl_hts
    else if is_key key 0x07
    then entry ctrl_bel
    else none

module _ (wide : WideChars) where
  abbrev pub lookup : FunctionType → List ℕ → Option Entry
  lookup csi key = lookup_csi key
  lookup escape key = lookup_escape wide key
  lookup control key = lookup_control key

abbrev pub cancel_wrap : Framebuffer → Framebuffer
cancel_wrap fb = record fb { ds = record fb.ds { next_print_will_wrap = false } }

unfoldable pub run_entry : Option Entry → State → Option State
run_entry none (fb, d) = some (cancel_wrap fb, d)
run_entry (some e) (fb, d) = e.function (if e.clears_wrap_state then cancel_wrap fb else fb, d)

abbrev pub collects : FunctionType → ℕ → Dispatcher → Dispatcher
collects escape ch d = collect ch d
collects csi ch d = collect ch d
collects control ch d = d

abbrev pub dispatch_key : FunctionType → ℕ → Dispatcher → List ℕ
dispatch_key escape ch d = d.dispatch_chars
dispatch_key csi ch d = d.dispatch_chars
dispatch_key control ch d = encode_utf8 ch

module _ (wide : WideChars) where
  -- `Dispatcher::dispatch`
  unfoldable pub dispatch : FunctionType → ℕ → State → Option State
  dispatch ty ch (fb, d) =
      let gathered = collects ty ch d in
      run_entry (lookup wide ty (dispatch_key ty ch gathered)) (fb, gathered)
