-- ===== src/Factory/Registration.antt =====
-- src/uvmsc/factory/uvm_default_factory.cpp: the instance overrides of a type that is registered.
use mathlib.Core.List.{append-nil}
use system_c_uvm.Base.{
  ◌≡◌, Bool, true, false, String, List, ◌++◌, none, some, Option-cases, inl, inr, arith,
}
use system_c_uvm.Base.Assoc.{nat_key, string_key, find, insert, find-insert_self}
use system_c_uvm.Factory.{
  Wrapper, Override, Factory, collect, take_named, take_wildcards, register_type, register_name,
  do_register, is_type_registered, queue_of,
}

-- The instance overrides that stand first in the queue of a type that is registered: those that wait
-- for its name, or else those it has.
abbrev pub waiting_for : Wrapper → Factory → List Override
waiting_for w f = elim (find w.type_name f.inst_override_name_queues) [
  | none ↦ queue_of (find w.ptr f.inst_override_queues)
  | some q ↦ q
]

take_named-queue :
    (w : Wrapper) (f : Factory)
    → queue_of (find w.ptr (take_named w f).inst_override_queues) ≡ waiting_for w f
take_named-queue w f = elim (Option-cases (find w.type_name f.inst_override_name_queues)) [
  | inl n ↦ ground (arith, n)
  | inr (q, e) ↦ ground (arith, e, find-insert_self w.ptr q f.inst_override_queues)
]

take_wildcards-queue :
    (matches : String → String → Bool) (w : Wrapper) (f : Factory)
    → queue_of (find w.ptr (take_wildcards matches w f).inst_override_queues)
      ≡ queue_of (find w.ptr f.inst_override_queues)
        ++ collect (λ o. matches o.orig_type_name w.type_name) f.wildcard_inst_overrides
unfolding collect
take_wildcards-queue matches w f = ground (
  arith,
  append-nil (queue_of (find w.ptr f.inst_override_queues)),
  find-insert_self w.ptr
      (queue_of (find w.ptr f.inst_override_queues)
        ++ collect (λ (o : Override). matches o.orig_type_name w.type_name)
            f.wildcard_inst_overrides)
      f.inst_override_queues,
)

register_type-queue :
    (matches : String → String → Bool) (w : Wrapper) (f : Factory)
    → find w.ptr f.types ≡ none
    → queue_of (find w.ptr (register_type matches w f).inst_override_queues)
      ≡ waiting_for w f
        ++ collect (λ o. matches o.orig_type_name w.type_name) f.wildcard_inst_overrides
register_type-queue matches w f h =
    let g = record f { types = insert w.ptr true f.types } in
    ground (arith, h, take_wildcards-queue matches w (take_named w g), take_named-queue w g)

-- Registering a type that is not registered gives it the instance overrides that wait for its name, or
-- those it has where none do, and after them those with wildcards that match its name.
pub do_register-queue :
    (matches : String → String → Bool) (w : Wrapper) (f : Factory)
    → is_type_registered w f ≡ false
    → queue_of (find w.ptr (do_register matches w f).inst_override_queues)
      ≡ waiting_for w f
        ++ collect (λ o. matches o.orig_type_name w.type_name) f.wildcard_inst_overrides
unfolding do_register is_type_registered
do_register-queue matches w f h =
    ground (arith, h, register_type-queue matches w (register_name w f))
