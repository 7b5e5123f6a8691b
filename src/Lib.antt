-- ===== src/Lib.antt =====
-- Verification library of refix, a FIX engine: the crates that read tag=value FIX messages and logs
-- (crates/refix-message), data dictionaries (crates/refix-dictionary), and the names of generated
-- code (crates/refix-codegen).
--
-- How the parts of the program interact. A `MessageStream` collects bytes; its `Scanner` finds a
-- frame at the front of the buffer, waits, or says how many bytes to skip. The `Tokenizer` splits a
-- frame into an index of fields, with data fields read by the length field before them. A
-- `RawMessage` is the bytes and that index; a `Scope` is a range of its fields, in which tags are
-- searched, values parsed, and repeating groups walked. A `LogReader` finds messages between other
-- output, by other rules, and uses the same tokenizer. A dictionary is resolved from its
-- declaration before code is generated from it.
--
-- The files and the code they model. Each file of a component holds the source's functions under
-- their names; its child modules hold the theorems.
--   Base            lists, options, results, bytes and integers, as the standard library has them
--   Tags            tag.rs, and the sorted sets of tags (`is_sorted_set`, `contains` of group.rs)
--   Framing         framing.rs: `Scanner::scan` and each of its checks
--   Tokenizer       tokenizer.rs, length_tags.rs, dialect.rs
--   Message         message.rs: scopes and the search of a tag; Message/Values has the typed getters
--   Stream          stream.rs: `feed` and `next_message`, each with the new state as its result
--   Group           group.rs: tables, the walk with its nested walks, `get_group`
--   Value           value.rs and value/: dates, times, months, timestamps, decimals
--   MultipleValues  multiple_values.rs
--   Log             log.rs and log/: starts, ends, `^A` copies, diagnostics, `LogReader::read`
--   Dictionary      crates/refix-dictionary: spec.rs in Spec, the resolver's checks in Checks, the
--                   rule on repeated tags in Tags, `Spec::resolve` in Resolver, the views of a
--                   resolved dictionary (dictionary.rs) in Views, quickfix.rs in Quickfix
--   Codegen         crates/refix-codegen: case_converter.rs, namespace.rs, naming.rs; conversion.rs,
--                   groups.rs and envelope.rs, the plans of the generator; rust/naming.rs and
--                   rust/names.rs in Rust, python/naming.rs and python/names.rs in Python; the
--                   constants for group tables, from rust/groups.rs, in Tables
-- Paths without a crate are below crates/refix-message/src.
--
-- How state and data are modelled. A byte, a tag, a slot and an offset are native numbers; a byte
-- string and a string are lists of numbers. Wrap-around is written out: `as u32` is `% 2^32`, the
-- checksum is folded modulo 256, checked and saturating operations have their bounds. An integer
-- with a sign is `ℤ` of Base/Int. A method that takes `&mut self` returns the new state. Errors are
-- values: `Option`, `Result` of Base/Result, or a type of the component.
--
-- Bounds and fuel. Rust allows no slice over isize::MAX bytes (`IsBuffer`). The index of a message
-- has `u32` offsets (`IsIndexable`); the default cap of the scanner is 1 MiB, so frames of a stream
-- are within them. Loops that are not structural run on fuel, and a theorem says that it is enough:
-- of `tokenize_fields` one more than there are positions, of the walk of a group one more than there
-- are slots, nested walks included, of the walk to a log message's end one more than there are
-- positions, of `expand_component` one more than there are components, of the loop of `normalized`
-- 255, the steps from the least `i8` to the largest, and of the search of `claim_value` for a number
-- one more than the scope has owners, which is enough where the numbered names differ, as they do
-- while the numbers fit in a `u32`.
--
-- Where a slice or an index would panic, the model gives an empty value or 0, as Base/Slices says, or a
-- result of its own, such as `panics` of Log/End and `panic` of the dictionary reader and the names.
--
-- Not modelled: the texts that Display and Debug write, but for a decimal's, the iterators that only
-- wrap a list, the ordering of times, the warnings of shared groups, the templates of generated code,
-- the Python bindings, the command line, and the conversions to third-party types. The XML parser
-- (the crate roxmltree) is a parameter: a function from the text to a tree of nodes with their
-- attributes, or to an error.
pub mod Base
pub mod Tags
pub mod Framing
pub mod Tokenizer
pub mod Message
pub mod Stream
pub mod Group
pub mod Value
pub mod MultipleValues
pub mod Log
pub mod Dictionary
pub mod Codegen
