-- ===== src/Config.antt =====
-- config_file.c: from the bytes of a configuration file to its lines.
mod Lines
mod Clean
mod Environment
mod Splitting
mod Words
mod Substitution
mod RuleFile
mod Inlined
mod Includes
mod RuleSound
mod Sections
mod Entries
mod ProxyEntries
mod Parse
mod Sound
mod SoundSections
mod SoundEntries
mod SoundProxies
mod Ordering
mod Frame
mod Places
mod Invariant
pub use Lines.{Input, eof, broken, next, Line}
unfoldable pub use Lines.{read_line, read_line_from, read_lines}
pub use Clean.{Scan}
unfoldable pub use Clean.{step, scan, remove_extra_spaces_and_comments_from_config_line}
unfoldable pub use Environment.{
  replace_environment_variables_in_string, substitute, match_start, config_set_int,
  config_set_string,
}
pub use Splitting.*
pub use Words.*
pub use Substitution.*
pub use RuleFile.{Source, Rules, Result, returns, Step}
unfoldable pub use RuleFile.{
  cleaned_line, add_parsed, after_include, include, rule_line, rule_lines, route_rule_file_parse,
}
pub use Inlined.{added}
unfoldable pub use Inlined.{add_all, placed_line, placed_lines, inlined}
pub use Includes.{route_rule_file_parse-inlined}
pub use Sections.{Config}
unfoldable pub use Parse.{config_file_parse}
pub use Sound.{IsSound, After}
pub use Invariant.{Read, config_file_parse-IsSound}
pub use Ordering.{IsInOrder, Holds, nothing, a_file, no_file, route_dir-IsInOrder}
unfoldable pub use ProxyEntries.{route_dir, route_files, file_list, sorted, lowest}
pub use Sections.{in_proxy}
pub use Frame.{OnlyChanges, entry_line-OnlyChanges}
unfoldable pub use Parse.{entry_line}
