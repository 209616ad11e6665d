-- ===== src/Workspace/Examples.antt =====
-- The workspace at concrete inputs.
use pg_fuzz.Base.{
  Text, [], ◌∷◌, some, none, if◌then◌else◌, codes, eq, lookup, split_on, scan_lines, trim_space,
  has_prefix, cut_at, ◌++◌, ◌≡◌, refl,
}
use pg_fuzz.Workspace.Conf.{Conf, loaded, load_conf, conf_line, read_conf, project_of, key}
use pg_fuzz.Workspace.Edit.{set, conf_entry, kept_lines, drops, drop_blank}
use pg_fuzz.Workspace.Image.{base_os_version, os_line, unquote}
use pg_fuzz.Workspace.Rewrite.{load_conf-set}

abbrev conf_file : Text
conf_file =
    codes "# a comment"
    ++ (b'\n'
        ∷ (codes "gucs=cron='dbfuzz'" ++ (b'\n' ∷ (codes " ref = old" ++ b'\n' ∷ b'\n' ∷ []))))

abbrev conf_before : Conf
conf_before = record {
  path = codes "/w/ws";
  name = codes "ws";
  project = codes "pgfuzz-ws";
  ref = codes "old";
  sanitizer = [];
  raw = (codes "gucs", codes "cron='dbfuzz'") ∷ (codes "ref", codes "old") ∷ [];
}

conf_file_test : load_conf (codes "/w/ws") (codes "ws") (some conf_file) ≡ loaded conf_before
unfolding load_conf read_conf conf_line scan_lines trim_space cut_at has_prefix project_of
conf_file_test = refl

conf_entry_test :
    conf_line (conf_entry (codes "ref") (codes "REL_17")) ≡ some (codes "ref", codes "REL_17")
unfolding conf_line conf_entry trim_space cut_at has_prefix
conf_entry_test = refl

load_conf-set_example :
    (c' : Conf) × (load_conf
        (codes "/w/ws")
        (codes "ws")
        (some (set (codes "ref") (codes "REL_17") (some conf_file)))
      ≡ loaded c')
    × ((j : Text)
        → lookup j c'.raw
          ≡ (if eq (codes "ref") j then some (codes "REL_17") else lookup j conf_before.raw))
unfolding conf_entry
load_conf-set_example =
    load_conf-set (codes "/w/ws") (codes "ws") conf_file (codes "ref") (codes "REL_17") conf_before
      conf_file_test conf_entry_test refl refl

set_test :
    set (codes "ref") (codes "REL_17") (some conf_file)
    ≡ codes "# a comment"
      ++ (b'\n' ∷ (codes "gucs=cron='dbfuzz'" ++ (b'\n' ∷ (codes "ref=REL_17" ++ b'\n' ∷ []))))
unfolding set kept_lines drop_blank drops conf_entry split_on trim_space cut_at
set_test = refl

key_test :
    key (codes "origin/master") (codes "address") (codes "libfuzzer")
    ≡ codes "origin-master__address__libfuzzer"
unfolding key
key_test = refl

os_test : base_os_version (some (codes "base_os_version: \"ubuntu-20-04\"")) ≡ codes "ubuntu-20-04"
unfolding base_os_version os_line unquote scan_lines trim_space has_prefix
os_test = refl

os_default_test : base_os_version none ≡ codes "ubuntu-24-04"
unfolding base_os_version
os_default_test = refl
