-- ===== src/Lib.antt =====
-- UVM-SystemC: a model of the library's own algorithms, with theorems on what they guarantee.
--
-- The program is a C++ class library for test benches. The parts that are modelled are those with
-- state and decisions of their own; they meet in few places. A report object's handler prepares a
-- message, the report server sends it through the catchers, counts it and carries out its actions.
-- Sequences ask the sequencer for locks and grants, and a driver makes it select one. A register
-- field keeps what is thought to be in the hardware, and a register puts its fields together. A
-- map gives registers their offsets. The memory allocation manager hands out regions of a memory. An
-- objection counts, along the hierarchy, who still needs the current phase. The resource pool finds
-- settings by name, scope and precedence. The factory finds the type that overrides another. An event
-- holds processes until it is triggered. The phases of a simulation are the nodes of a graph, along
-- which they are executed. The packer turns values into bits and back.
--
-- - Base: libraries passed on, Boolean tests on numbers, lists, association maps (for std::map),
--   the integers that the source passes as `int`, masks, and binary digits.
-- - MemMam: src/uvmsc/reg/uvm_mem_mam.cpp. `Mam` is the manager's state and m_in_use its `in_use`;
--   reserve_region, request_region, release_region, release_all_regions, reconfigure and for_each
--   carry the names of the source. The loop of reserve_region is `place`, that of release_region is
--   `remove`.
-- - Report.Handler: src/uvmsc/report/uvm_report_handler.cpp. The maps of the class are the fields of
--   `Handler`; each setter and getter is a function with its name.
-- - Report.Catcher: src/uvmsc/report/uvm_report_catcher.cpp. `process_all_report_catchers` with its
--   loop `catch_loop`; the virtual do_catch is a field of `Catcher`.
-- - Report.Server: src/uvmsc/report/uvm_default_report_server.cpp. The counters are the fields of
--   `Server`; execute_report_message returns the effects of the actions as a list.
-- - Sequencer: src/uvmsc/seq/uvm_sequencer_base.cpp. arb_sequence_q is `queue`, lock_list is `locks`,
--   arb_completed is `completed`. Sequencer.Arbiter has m_choose_next_request (`choose_next_request`)
--   and m_select_sequence, Sequencer.Exit has remove_sequence_from_queues. m_lock_req and
--   wait_for_grant (`request_grant`) are modelled up to the point where they wait.
-- - Objection: src/uvmsc/phasing/uvm_objection.cpp. m_raise and m_drop with m_propagate are `raise`
--   and `drop` along the path of an object to the top; the drain of m_execute_scheduled_forks,
--   m_forked_drain_guard and m_forked_drain is three steps.
-- - RegField: src/uvmsc/reg/uvm_reg_field.cpp. `set`, `reset` and `do_predict` with the access
--   policies; m_predict is `predicted`, m_update is `update_value`.
-- - Reg: src/uvmsc/reg/uvm_reg.cpp. A register as a list of `Slot`s, its fields at their places: set,
--   get, update up to its write, reset, do_predict and do_check over all fields, add_field, and the
--   maps of the register (get_local_map, get_default_map, m_check_access). The fields are those of
--   RegField.
-- - RegMap: src/uvmsc/reg/uvm_reg_map.cpp. m_regs_by_offset and m_regs_by_offset_wo are fields of
--   `RegMap`; m_set_reg_offset with its loops `unmap_each` and `map_each`, and the lookups by offset.
-- - Resource: src/uvmsc/conf/uvm_resource_pool.cpp. rtab and ttab are fields of `Pool`; set, the
--   lookups, sort_by_precedence with its buckets, and the priorities carry the names of the source.
-- - Factory: src/uvmsc/factory/uvm_default_factory.cpp. The tables of the class are fields of
--   `Factory`. The setters and find_override_by_type carry the names of the source; the queue loops of
--   do_register are `take_named` and `take_wildcards`, and create_object_by_type and its three
--   likes are `create_by_type` and `create_by_name`.
-- - Event: src/uvmsc/base/uvm_event.cpp. The functions carry the names of the source; the processes
--   that wait for the kernel's two events are lists of the state, operator= is `assign`, `Operation`
--   is a call, and `run_all` makes a sequence of calls.
-- - Phase: src/uvmsc/phasing/uvm_phase.cpp, and in Phase.Domain uvm_domain.cpp. The objects are kept in
--   a `Store` by their addresses; m_predecessors and m_successors are lists of addresses. Phase.Search
--   has the walks (find, is_before), Phase.Schedule has `add` with its four insertions,
--   Phase.Execution has execute_phase as a task with stages, which m_run_phases starts and which go on
--   in any order, and Phase.Jump has `jump`, clear_successors and the end of a phase that jumps.
-- - Packer: src/uvmsc/policy/uvm_packer.cpp. m_bits is a function from indices to bits; the vectors of
--   sc_dt are lists of bits, the lowest first, and a range of one is read and assigned by `read` and
--   `write`. The functions carry the names of the source; the operators << and >> are `put` and `get`
--   in Packer.Operators, by the type of the value. Packer.Stream sees the bits between the two indices
--   as a stream, and Packer.Words has get_bits, get_bytes, get_ints and what puts them back.
-- - Tests: runs at small inputs, and each property applied at one.
--
-- Every loop is structural recursion over the list that it visits and needs no fuel, but for
-- find_override_by_type, which calls itself: it is given fuel, one more than the number of overrides,
-- which is proved enough where different types have different names; and for the walks over the graph
-- of phases, which are given fuel: above the rank of their start it is proved enough in a graph
-- without cycles, and `add` gives them as much as there are phases. The loop of unpack_string
-- has as much as there are bits left, of which every round takes eight. Every function is total; a
-- fatal report, which throws, is a value (`fatal`, `below_zero`). Addresses are taken modulo 2^64 and
-- byte counts modulo 2^32 where the source's types are so wide. The `int` counters of reports and of
-- the sequencer, the precedences of resources and the places of fields are taken not to overflow; the
-- sums of priorities wrap around. The masks of a register field are those of an `int`, which C++
-- defines below 31 bits; beyond that the mask is an argument, and so is, in do_check, a mask that is
-- shifted beyond an `int`. What C++ leaves undefined in the clear of an objection is `none`.
--
-- Not modelled: text output, the simulation kernel's events and processes (a call that waits ends
-- at its wait), transaction recording, which the source has commented out, the debug pass of the
-- factory, the accesses of a register on a bus, and the parts of the library that are not named
-- above, such as the physical addresses of a map; of phases, their synchronisation between domains,
-- the time-out, and the callbacks of components; of the packer, real numbers, times, four-valued
-- logic and objects. A field of the packer is taken to have 64 bits at most, its indices to stay below
-- 2^32 and its allocated size below 2^31.
pub mod Base
pub mod MemMam
pub mod Objection
pub mod Report
pub mod Sequencer
pub mod RegField
pub mod Reg
pub mod RegMap
pub mod Resource
pub mod Factory
pub mod Event
pub mod Tests
pub mod Phase
pub mod Packer
