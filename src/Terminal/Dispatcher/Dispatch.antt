-- ===== src/Terminal/Dispatcher/Dispatch.antt =====
-- Whatever is dispatched, and whatever operating system command ends, the screen is kept and nothing
-- panics.
use rmosh.Prelude.{
  ℕ, Bool, true, false, not, ◌||◌, Option, none, some, List, arith, Succeeds, if◌then◌else◌, length,
  leb, drop, ◌==◌,
}
use rmosh.Terminal.Cell.{WideChars}
use rmosh.Terminal.Framebuffer.{Framebuffer, set_clipboard, add_color_query}
use rmosh.Terminal.Framebuffer.Bounds.{IsValid}
use rmosh.Terminal.Dispatcher.{FunctionType, escape, csi, control, Dispatcher, collect}
use rmosh.Terminal.Dispatcher.Params.{HasParams}
use rmosh.Terminal.Dispatcher.Functions.{State}
use rmosh.Terminal.Dispatcher.Osc.{
  osc_dispatch, query_or, parse_color_query, numbered, osc_command, open_link, parse_printable_osc,
  osc_8, set_link, split_once, set_titles, second_is_semicolon,
}
use rmosh.Terminal.Dispatcher.Table.{
  Entry, lookup_csi_from_m, lookup_csi, lookup_escape, lookup_control, lookup, run_entry,
  cancel_wrap, collects, dispatch_key, dispatch,
}
use rmosh.Terminal.Dispatcher.Safety.{IsSafe}
use rmosh.Terminal.Dispatcher.Routines
use rmosh.Terminal.Dispatcher.Modes
use rmosh.Terminal.Dispatcher.Edits

-- An entry of the table that keeps the screen, if there is one.
data Good (w h : ℕ) : Option Entry → Type 0 where
  missing : Good w h none
  found :
      {e : Entry}
      → ((s : State) → IsSafe w h s → Succeeds (IsSafe w h) (e.function s))
      → Good w h (some e)

module _ (w h : ℕ) where
  choose : (b : Bool) (e f : Option Entry) → Good w h e → Good w h f → Good w h (if b then e else f)
  choose true e f g k = g
  choose false e f g k = k

  lookup_csi_from_m-Good : (key : List ℕ) → Good w h (lookup_csi_from_m key)
  unfolding lookup_csi_from_m
  lookup_csi_from_m-Good key = choose _ _ _ (found (Edits.csi_sgr-IsSafe w h)) (
      choose _ _ _ (found (Edits.csi_dsr-IsSafe w h)) (
        choose _ _ _ (found (Edits.csi_il-IsSafe w h)) (
          choose _ _ _ (found (Edits.csi_dl-IsSafe w h)) (
            choose _ _ _ (found (Edits.csi_ich-IsSafe w h)) (
              choose _ _ _ (found (Edits.csi_dch-IsSafe w h)) (
                choose _ _ _ (found (Edits.csi_vpa-IsSafe w h)) (
                  choose _ _ _ (found (Edits.csi_hpa-IsSafe w h)) (
                    choose _ _ _ (found (Edits.csi_ech-IsSafe w h)) (
                      choose _ _ _ (found (Edits.csi_decstr-IsSafe w h)) (
                        choose _ _ _ (found (Edits.csi_sd-IsSafe w h))
                          (choose _ _ _ (found (Edits.csi_su-IsSafe w h)) missing)))))))))))

  lookup_csi-Good : (key : List ℕ) → Good w h (lookup_csi key)
  unfolding lookup_csi
  lookup_csi-Good key = choose _ _ _ (found (Routines.csi_el-IsSafe w h)) (
      choose _ _ _ (found (Routines.csi_ed-IsSafe w h)) (
        choose _ _ _ (found (Routines.csi_cursormove-IsSafe w h)) (
          choose _ _ _ (found (Routines.csi_da-IsSafe w h)) (
            choose _ _ _ (found (Routines.csi_sda-IsSafe w h)) (
              choose _ _ _ (found (Modes.csi_cxt-IsSafe w h)) (
                choose _ _ _ (found (Modes.csi_tbc-IsSafe w h)) (
                  choose _ _ _ (found (Modes.csi_decsm-IsSafe w h)) (
                    choose _ _ _ (found (Modes.csi_decrm-IsSafe w h)) (
                      choose _ _ _ (found (Modes.csi_sm-IsSafe w h)) (
                        choose _ _ _ (found (Modes.csi_rm-IsSafe w h)) (
                          choose _ _ _ (found (Modes.csi_decstbm-IsSafe w h))
                            (lookup_csi_from_m-Good key))))))))))))

  lookup_escape-Good : (wide : WideChars) (key : List ℕ) → Good w h (lookup_escape wide key)
  unfolding lookup_escape
  lookup_escape-Good wide key = choose _ _ _ (found (Routines.esc_decaln-IsSafe w h wide)) (
      choose _ _ _ (found (Edits.esc_decsc-IsSafe w h)) (
        choose _ _ _ (found (Edits.esc_decrc-IsSafe w h))
          (choose _ _ _ (found (Edits.esc_ris-IsSafe w h)) missing)))

  lookup_control-Good : (key : List ℕ) → Good w h (lookup_control key)
  unfolding lookup_control
  lookup_control-Good key = choose _ _ _ (found (Routines.ctrl_lf-IsSafe w h)) (
      choose _ _ _ (found (Routines.ctrl_cr-IsSafe w h)) (
        choose _ _ _ (found (Routines.ctrl_bs-IsSafe w h)) (
          choose _ _ _ (found (Routines.ctrl_ri-IsSafe w h)) (
            choose _ _ _ (found (Routines.ctrl_nel-IsSafe w h)) (
              choose _ _ _ (found (Modes.ctrl_ht-IsSafe w h)) (
                choose _ _ _ (found (Modes.ctrl_hts-IsSafe w h))
                  (choose _ _ _ (found (Modes.ctrl_bel-IsSafe w h)) missing)))))))

  lookup-Good :
      (wide : WideChars) (ty : FunctionType) (key : List ℕ) → Good w h (lookup wide ty key)
  lookup-Good wide csi key = lookup_csi-Good key
  lookup-Good wide escape key = lookup_escape-Good wide key
  lookup-Good wide control key = lookup_control-Good key

  cancelled : (fb : Framebuffer) → IsValid w h fb → IsValid w h (cancel_wrap fb)
  cancelled fb v = ground arith

  unless_kept :
      (b : Bool) (fb : Framebuffer)
      → IsValid w h fb
      → IsValid w h (if b then cancel_wrap fb else fb)
  unless_kept true fb v = cancelled fb v
  unless_kept false fb v = v

  run_entry-IsSafe :
      (o : Option Entry) (s : State)
      → Good w h o
      → IsSafe w h s
      → Succeeds (IsSafe w h) (run_entry o s)
  unfolding run_entry
  run_entry-IsSafe none (fb, d) missing v = record {
    screen = cancelled fb v.screen;
    parameters = v.parameters;
  }
  run_entry-IsSafe (some e) (fb, d) (found keeps) v =
      keeps (if e.clears_wrap_state then cancel_wrap fb else fb, d)
        (record { screen = unless_kept e.clears_wrap_state fb v.screen; parameters = v.parameters })

  collects-HasParams :
      (ty : FunctionType) (ch : ℕ) (d : Dispatcher) → HasParams d → HasParams (collects ty ch d)
  unfolding collect
  collects-HasParams escape ch d p = ground arith
  collects-HasParams csi ch d p = ground arith
  collects-HasParams control ch d p = p

  pub dispatch-IsSafe :
      (wide : WideChars) (ty : FunctionType) (ch : ℕ) (s : State)
      → IsSafe w h s
      → Succeeds (IsSafe w h) (dispatch wide ty ch s)
  unfolding dispatch
  dispatch-IsSafe wide ty ch (fb, d) v =
      let gathered = collects ty ch d in
      let key = dispatch_key ty ch gathered in
      run_entry-IsSafe (lookup wide ty key) (fb, gathered) (lookup-Good wide ty key)
        (record { screen = v.screen; parameters = collects-HasParams ty ch d v.parameters })

  if_keeps :
      (b : Bool) (f g : Framebuffer)
      → IsValid w h f
      → IsValid w h g
      → IsValid w h (if b then f else g)
  if_keeps true f g v u = v
  if_keeps false f g v u = u

  set_link-IsValid :
      (o : Option (List ℕ × List ℕ)) (fb : Framebuffer)
      → IsValid w h fb
      → IsValid w h (set_link o fb)
  set_link-IsValid none fb v = v
  set_link-IsValid (some (params, url)) fb v = ground arith

  osc_8-IsValid : (osc : List ℕ) (fb : Framebuffer) → IsValid w h fb → IsValid w h (osc_8 osc fb)
  unfolding osc_8
  osc_8-IsValid osc fb v =
      if_keeps (leb (length osc) 2 || not (second_is_semicolon osc)) fb _ v
        (set_link-IsValid (split_once (drop 2 osc)) fb v)

  open_link-IsValid :
      (o : Option (List ℕ)) (fb : Framebuffer) → IsValid w h fb → IsValid w h (open_link o fb)
  open_link-IsValid none fb v = v
  open_link-IsValid (some osc) fb v = osc_8-IsValid osc fb v

  set_titles-IsValid :
      (icon title : Bool) (text : List ℕ) (fb : Framebuffer)
      → IsValid w h fb
      → IsValid w h (set_titles icon title text fb)
  set_titles-IsValid icon title text fb v = ground arith

  numbered-IsValid :
      (cmd offset : ℕ) (osc : List ℕ) (fb : Framebuffer)
      → IsValid w h fb
      → IsValid w h (numbered cmd offset osc fb)
  unfolding numbered
  numbered-IsValid cmd offset osc fb v =
      if_keeps (cmd == 8) _ _ (open_link-IsValid (parse_printable_osc osc) fb v) (
        if_keeps ((cmd == 0 || cmd == 1) || (cmd == 0 || cmd == 2)) _ _
          (set_titles-IsValid (cmd == 0 || cmd == 1) (cmd == 0 || cmd == 2) _ fb v) v)

  query_or-IsValid :
      (o : Option (List ℕ)) (osc : List ℕ) (fb : Framebuffer)
      → IsValid w h fb
      → IsValid w h (query_or o osc fb)
  unfolding add_color_query
  query_or-IsValid (some query) osc fb v = record {
    state = v.state;
    count = v.count;
    widths = v.widths;
  }
  query_or-IsValid none osc fb v = numbered-IsValid (osc_command osc).0 (osc_command osc).1 osc fb v

  pub osc_dispatch-IsValid :
      (d : Dispatcher) (fb : Framebuffer) → IsValid w h fb → IsValid w h (osc_dispatch d fb)
  unfolding osc_dispatch set_clipboard
  osc_dispatch-IsValid d fb v =
      if_keeps _ _ _ (record { state = v.state; count = v.count; widths = v.widths })
        (query_or-IsValid (parse_color_query d.osc_string) d.osc_string fb v)
