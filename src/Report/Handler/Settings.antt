-- ===== src/Report/Handler/Settings.antt =====
-- What the settings of src/uvmsc/report/uvm_report_handler.cpp mean: each setter against each
-- getter, and the order in which the getters look.
use system_c_uvm.Base.{ℕ, ◌+◌, ◌≡◌, refl, ◌&&◌, Bool, if◌then◌else◌, String, arith, List, some}
use system_c_uvm.Base.Assoc.{Key, string_key, find, insert, find-insert}
use system_c_uvm.Report.{
  Severity, info, warning, error, fatal, severity_key, display_flag, count_flag, exit_flag,
}
use system_c_uvm.Report.Handler.{
  Handler, find₂, insert₂, inner_of, or_else, unless_null, get_verbosity_level, get_action,
  get_file_handle, set_verbosity_level, set_severity_action, set_id_action, set_severity_id_action,
  set_id_verbosity, set_severity_id_verbosity, set_severity_id_override, new_handler, overridden,
}

module _ {ℓ κ ι} {K : Type ℓ} {L : Type κ} {V : Type ι} ⦃k : Key K⦄ ⦃l : Key L⦄ where
  pub find₂-insert₂ :
      (a a' : K) (b b' : L) (v : V) (m : List (K × List (L × V)))
      → find₂ a' b' (insert₂ a b v m)
        ≡ (if k.same a a' && l.same b b' then some v else find₂ a' b' m)
  unfolding find₂ insert₂ find
  find₂-insert₂ a a' b b' v m =
      rw (find-insert a a' (insert b v (inner_of (find a m))) m, find₂, insert₂)
        (ground (arith, k.same_iff a a', find-insert b b' v (inner_of (find a m))))

abbrev pub same_string : String → String → Bool
same_string = string_key.same

abbrev pub same : Severity → Severity → Bool
same = severity_key.same

-- Verbosity: a level set for a severity and an id decides for exactly that pair; one set for an id
-- decides for that id under every severity that has no level of its own with it; the general level
-- decides for what neither names. All other answers stay as they were.
pub get_verbosity_level-set :
    (s s' : Severity) (i i' : String) (v : ℕ) (h : Handler)
    → (get_verbosity_level s' i' (set_severity_id_verbosity s i v h)
        ≡ (if same s s' && same_string i i' then v else get_verbosity_level s' i' h))
      × (get_verbosity_level s' i' (set_id_verbosity i v h)
          ≡ or_else
              (find₂ s' i' h.severity_id_verbosities)
              (if same_string i i' then v else get_verbosity_level s' i' h))
      × (get_verbosity_level s' i' (set_verbosity_level v h)
          ≡ or_else (find₂ s' i' h.severity_id_verbosities) (or_else (find i' h.id_verbosities) v))
unfolding get_verbosity_level set_severity_id_verbosity set_id_verbosity set_verbosity_level
get_verbosity_level-set s s' i i' v h = (
  rw (find₂-insert₂ s s' i i' v h.severity_id_verbosities) (ground arith),
  rw (find-insert i i' v h.id_verbosities) (ground arith),
  refl,
)

-- Actions: one set for a severity and an id decides for exactly that pair; one set for an id decides
-- for that id under every severity that has none of its own with it; one set for a severity decides
-- for that severity where neither of these is set. All other answers stay as they were.
pub get_action-set :
    (s s' : Severity) (i i' : String) (a : ℕ) (h : Handler)
    → (get_action s' i' (set_severity_id_action s i a h)
        ≡ (if same s s' && same_string i i' then a else get_action s' i' h))
      × (get_action s' i' (set_id_action i a h)
          ≡ or_else
              (find₂ s' i' h.severity_id_actions)
              (if same_string i i' then a else get_action s' i' h))
      × (get_action s' i' (set_severity_action s a h)
          ≡ or_else
              (find₂ s' i' h.severity_id_actions)
              (or_else (find i' h.id_actions) (if same s s' then a else get_action s' i' h)))
unfolding get_action set_severity_id_action set_id_action set_severity_action
get_action-set s s' i i' a h = (
  rw (find₂-insert₂ s s' i i' a h.severity_id_actions) (ground arith),
  rw (find-insert i i' a h.id_actions) (ground arith),
  rw (find-insert s s' a h.severity_actions) (ground arith),
)

-- get_file_handle returns the first handle that is set and not null among the one for the severity
-- and id, the one for the id and the one for the severity, and else the default handle.
pub get_file_handle-first :
    (s : Severity) (i : String) (h : Handler)
    → get_file_handle s i h
      ≡ unless_null (find₂ s i h.severity_id_file_handles) (
          unless_null
            (find i h.id_file_handles)
            (unless_null (find s h.severity_file_handles) h.default_file_handle))
unfolding get_file_handle
get_file_handle-first s i h = ground arith

-- A new handler displays every message, counts errors and exits on fatals, whatever the id; its
-- verbosity is UVM_MEDIUM and its file null.
pub new_handler-defaults :
    (s : Severity) (i : String)
    → (get_action s i new_handler ≡ (
        display_flag
        + (if same s error then count_flag else if same s fatal then exit_flag else 0)))
      × (get_verbosity_level s i new_handler ≡ 200)
      × (get_file_handle s i new_handler ≡ 0)
unfolding new_handler get_action get_verbosity_level get_file_handle find₂ find
new_handler-defaults info i = (refl, refl, refl)
new_handler-defaults warning i = (refl, refl, refl)
new_handler-defaults error i = (refl, refl, refl)
new_handler-defaults fatal i = (refl, refl, refl)

-- A severity override for an id decides for exactly that severity and id. From then on the general
-- overrides have no say for that id: its other severities keep what the id's own overrides give.
pub overridden-set_severity_id_override :
    (s s' n : Severity) (i i' : String) (h : Handler)
    → overridden s' i' (set_severity_id_override s i n h) ≡ (
        if same_string i i'
        then (if same s s' then n else or_else (find₂ i' s' h.sev_id_overrides) s')
        else overridden s' i' h)
unfolding overridden set_severity_id_override insert₂ find₂ find
overridden-set_severity_id_override s s' n i i' h =
    rw
      (
        find-insert i i' (insert s n (inner_of (find i h.sev_id_overrides))) h.sev_id_overrides,
        overridden,
      )
      (ground (
        arith,
        string_key.same_iff i i',
        find-insert s s' n (inner_of (find i h.sev_id_overrides)),
      ))
