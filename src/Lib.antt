-- ===== src/Lib.antt =====
-- The energy optimizer collects hourly data of a house from Home Assistant and other services, keeps
-- its history, plans the use of energy with a linear program, and sets the charge power of an
-- electric car. This library is about the history, from the readings of a counter on, and about the
-- control of the charger.
--
-- The parts, and the files that model them (paths from the root of the repository):
-- - Exclusions: src/energy_optimizer/exclusions.py. An hour without a value has an exclusion with
--   its causes. Children: Gap (history_unavailable_exclusions), Cap (cap_data_points), Merge and
--   Union (merge_exclusions).
-- - Series: the normalized records of src/energy_optimizer/providers/interfaces.py and the errors of
--   src/energy_optimizer/storage_errors.py, with a constructor for each kind of message.
-- - Records: src/energy_optimizer/household_load_records.py. Points and Index are about the
--   validation (household_load_points, index_exclusions); Missing, Bridge, Overlay, Laid and Merge
--   about merge_household_load_history and the bridge over a gap; Exclude and Rebuild about
--   _with_points; Slice and Bounded about slice_household_load and bounded_household_load.
-- - Scan and Ndjson: the other half of src/energy_optimizer/household_load_records.py, the stored
--   form of a history, a JSON value on each line. Scan is _looks_like_incomplete_household_record.
--   Ndjson has HouseholdLoadRecord and its validators, and the children Decode, Encode and Parse have
--   decode, encode with household_load_records, and parse_household_history. Valid, Validated and
--   Retained are about what is accepted; Lines, Reading, Ordered, Written and RoundTrip about a
--   history that is written and read again; Cut about one that is cut off; Window, Joined and
--   Appended about records behind those of another history.
-- - Storage: src/energy_optimizer/household_load_store.py (child Household), and the calls of
--   src/energy_optimizer/storage.py on the files, _atomic_write and _append. Appended is about
--   the files that an append left, Stored about a load with any faults, Recovery and Saved about the
--   backup and a save where every call works. Outcome has rules for methods with any faults.
-- - History: the histories of src/energy_optimizer/providers/home_assistant_energy_history.py and
--   src/energy_optimizer/providers/home_assistant_pv.py, which merge like a household load.
-- - Documents: load and save of src/energy_optimizer/storage.py for what is stored as one JSON
--   document. Stored is about the document that the files stand for, Replaced and Saved about a
--   save with any faults, Quiet about a save and a load without.
-- - Bytes and Json: the methods of bytes, and JSON values with what is a parameter of them.
-- - Grid and Prices: src/energy_optimizer/history_merge.py, the grid flow and the market prices, with
--   their validation and their merge.
-- - Legacy: src/energy_optimizer/legacy_quality.py. A stored history of an earlier version is
--   upgraded before it is validated: flagged hours become excluded ones.
-- - Readings and Counter: normalize_counter_history of
--   src/energy_optimizer/providers/home_assistant_energy.py, with the samples of
--   src/energy_optimizer/providers/home_assistant_history.py. Readings has the samples and the hours
--   that they exclude, Counter the loop. Within is about the loop, Explained about its
--   result, and Returns about when there is one.
-- - Control: src/energy_optimizer/control/ev_controller.py, and what it reads of
--   src/energy_optimizer/config.py. Schedule is about merge_schedule and power_at; Sends and
--   Commands about one poll (apply_due); Polls about any number of them.
-- - Hours and Floats: time and numbers. Prelude: what the modules share, with lists, results,
--   dictionaries and their sorting. Samples: data for the tests. The modules called Tests hold the
--   theorems at concrete data.
--
-- How the parts interact: a provider fetches a range of hours, which is merged into the stored
-- history. Both merges of hourly histories take the exclusions of the missing hours from Exclusions,
-- and validate both sides first. The stored histories of an earlier version pass through Legacy
-- before that. A save of a household load appends the records of the new hours to the file, and the
-- history that is read from it is the merge. The controller reads the schedule that the plans were
-- merged into.
--
-- Conventions:
-- - A point in time is a number of microseconds, in UTC; a naive datetime is a case of its own, and
--   rejected where the code rejects it. OverflowError at the end of the calendar is not modelled.
-- - A floating-point number is an element of any type with the operations of FloatOps; no law of
--   them is assumed. float(x) of a float is x. The rounding of the controller is RoundOps.
-- - A raised exception is an error of Result. A dictionary is an association list in insertion
--   order; the values of a record that the code replaces are replaced in a new record.
-- - Every loop is a recursion on its list, so there is no fuel and nothing can run out. The bounds of
--   the code are kept: 87,672 hours of history, 50 data points for an entity and hour, 48 hours of
--   schedule.
-- - The answers to the calls of the controller are a function of the number of calls before; what the
--   store holds is an argument of a poll.
-- - json.loads and json.dumps, the text of a datetime and the reading and writing of an exclusion by
--   pydantic are the record Format, and for a document TypeAdapter. A theorem that needs reading and
--   writing to agree has a hypothesis for that, on the records that it is about. The reading of a
--   household load that an earlier version stored is a parameter, too.
-- - The disk has the files of one key, under names without the digest, and a list of what becomes of
--   the next calls: one works, fails, fails after some bytes of an append, or fails when all is done.
--   An atomic write leaves the old bytes or the new ones; its temporary file is left out.
--
-- Not modelled: logging; HTTP; the dispatch of the store on the type of the data; the providers'
-- conversion of responses; the linear program and the planning; the web interface. They
-- are input and output, third-party code, or parts that the library does not cover yet.
pub mod Bytes
pub mod Control
pub mod Counter
pub mod Documents
pub mod Exclusions
pub mod Floats
pub mod Grid
pub mod History
pub mod Hours
pub mod Json
pub mod Legacy
pub mod Ndjson
pub mod Prelude
pub mod Prices
pub mod Readings
pub mod Records
pub mod Samples
pub mod Scan
pub mod Series
pub mod Storage
