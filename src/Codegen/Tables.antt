-- ===== src/Codegen/Tables.antt =====
-- crates/refix-codegen: rust/groups.rs, `table_arguments` and `table_reference`, the group tables in
-- the generated code; python/groups.rs writes the same arguments. The value of the generated
-- expression is that of its `GroupTable::new`, whose assertions are the checks of
-- `OwnedGroupTable::new`. A nested group with a module of its own refers to the table that its
-- module is given by the same rule.
pub mod Built
pub mod Accepted
use refix.Base.{ℕ, List}
use refix.Base.Result.{Result, ok, ◌>>=◌}
use refix.Tags.{sort_tags}
use refix.Group.{GroupTable, GroupTables, no_tables, and_table, GroupTableError, new_group_table}
use refix.Dictionary.Spec.{Field}
use refix.Dictionary.Tags.{
  resolved_field, resolved_group, ResolvedMembers, no_resolved, and_resolved, tag_of,
}
use refix.Codegen.Groups.{direct_tags}

-- `GroupTable::new` on a group's arguments.
abbrev pub build_table :
    List Field → ℕ → ℕ → ResolvedMembers → GroupTables → Result GroupTableError GroupTable
build_table fields count d inner nested =
    new_group_table (tag_of fields count) (tag_of fields d) (sort_tags (direct_tags fields inner))
      nested

-- The tables of the groups among the members.
unfoldable pub nested_tables : List Field → ResolvedMembers → Result GroupTableError GroupTables
unfolding sort_tags direct_tags new_group_table
nested_tables fields no_resolved = ok no_tables
nested_tables fields (and_resolved (resolved_field index required) members) =
    nested_tables fields members
nested_tables fields (and_resolved (resolved_group count d required declared c inner) members) =
    nested_tables fields inner >>= λ nested. build_table fields count d inner nested >>= λ t.
    nested_tables fields members >>= λ rest. ok (and_table t rest)
