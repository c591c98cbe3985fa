-- ===== src/Environment/Tests.antt =====
-- Environment files at concrete contents, on a small file system.
use sub2api_gate.Base.{
  ℕ, suc, ◌≤◌, ◌≡◌, refl, some, [], ◌∷◌, arith, Text, codes, text_eqb, take, drop, length,
  length-take, split, strip, ◌==◌, nat_eq, if◌then◌else◌, Result, ok, err,
}
use sub2api_gate.Environment.{
  Values, parse_private_environment, decode, check_bytes, replace_crlf, add_lines, add_line,
  add_entry, add_value, is_skipped, partition, is_key, is_forbidden_key, emit_nul, bad_separator,
  invalid_file,
}
use sub2api_gate.Environment.Sound.{IsEnvironment, parse_private_environment-IsEnvironment}
use sub2api_gate.Environment.RoundTrip.{
  render, with_crlf, pairs, parse_private_environment-with_crlf, parse_private_environment-render,
  emit_nul-parse_private_environment,
}
use sub2api_gate.Environment.File.{
  FilePath, FileStat, Os, descriptor, production_components, read_private_environment_payload,
  open_private_environment, normalize_path, validate_parent, validate_ancestor, validate_file, walk,
  check_directory, read_opened, read_checked, read_chunks, finish_reading, same_identity,
}
use sub2api_gate.Environment.File.Reads.{read_private_environment_payload-ends}
use sub2api_gate.Environment.File.Safe.{
  ReadOf, OpenedByRoot, read_private_environment_payload-IsPrivateFile,
}

abbrev two_lines : Text
two_lines = codes "# keys\nKEY=a-b\n\nTOKEN_2=x=y\n"

abbrev two_values : Values
two_values = (codes "KEY", codes "a-b") ∷ (codes "TOKEN_2", codes "x=y") ∷ []

two_parsed : parse_private_environment two_lines ≡ ok two_values
unfolding parse_private_environment decode check_bytes replace_crlf add_lines add_line add_entry
    add_value is_skipped partition is_key is_forbidden_key split strip text_eqb
two_parsed = refl

reserved : parse_private_environment (codes "DOCKER_HOST=x\n") ≡ err invalid_file
unfolding parse_private_environment decode check_bytes replace_crlf add_lines add_line add_entry
    add_value is_skipped partition is_key is_forbidden_key split strip text_eqb
reserved = refl

lone_return : parse_private_environment (65 ∷ 61 ∷ 13 ∷ []) ≡ err bad_separator
unfolding parse_private_environment decode check_bytes
lone_return = refl

parse_private_environment-IsEnvironment_example : IsEnvironment two_values
parse_private_environment-IsEnvironment_example =
    parse_private_environment-IsEnvironment two_lines two_values two_parsed

parse_private_environment-with_crlf_example :
    parse_private_environment (with_crlf two_lines) ≡ parse_private_environment two_lines
parse_private_environment-with_crlf_example = parse_private_environment-with_crlf two_lines refl

parse_private_environment-render_example :
    parse_private_environment (render two_values) ≡ ok two_values
parse_private_environment-render_example =
    parse_private_environment-render two_values
      (parse_private_environment-IsEnvironment two_lines two_values two_parsed) (omega arith)

emit_nul-parse_private_environment_example : pairs (split 0 (emit_nul two_values)) ≡ two_values
emit_nul-parse_private_environment_example =
    emit_nul-parse_private_environment two_lines two_values two_parsed

abbrev file_stat : FileStat
file_stat = record {
  device = 1;
  inode = 9;
  mode = 0o100600;
  links = 1;
  uid = 0;
  gid = 0;
  size = 4;
  modified_ns = 5;
  changed_ns = 6;
}

abbrev directory_stat : FileStat
directory_stat = record file_stat { mode = 0o40755; inode = 2 }

take_bounded :
    (n : ℕ) (s : Text) (chunk : Text)
    → ◌≡◌ {A = Result Text} (ok (take n s)) (ok chunk)
    → length chunk ≤ n
take_bounded n s chunk e =
    let same : take n s ≡ chunk = cc in rw (← same) (ground (arith, length-take n s))

-- Directories by depth and one file; the state is what is left to read.
abbrev small_os : Os
small_os = record {
  Handle = ℕ;
  Files = Text;
  open_root = λ s. descriptor 0;
  open_directory = λ h c s. descriptor (suc h);
  open_file = λ h c s. descriptor 100;
  fstat = λ h s. ok (if h == 100 then file_stat else directory_stat);
  read = λ h n s. (ok (take n s), drop n s);
  read_bounded = λ h n s chunk e. take_bounded n s chunk e;
}

abbrev production : FilePath
production = record { root = codes "/"; components = production_components }

was_read :
    read_private_environment_payload small_os production 0 0 (codes "A=1\n")
    ≡ some (ok (codes "A=1\n", file_stat))
unfolding read_private_environment_payload open_private_environment normalize_path validate_parent
    validate_ancestor validate_file walk check_directory read_opened read_checked read_chunks
    finish_reading same_identity text_eqb
was_read = refl

read_private_environment_payload-ends_example :
    (r : Result (Text × FileStat)) × (read_private_environment_payload small_os production 0 0
        (codes "A=1\n")
      ≡ some r)
read_private_environment_payload-ends_example =
    read_private_environment_payload-ends small_os production 0 0 (codes "A=1\n")

read_private_environment_payload-IsPrivateFile_example :
    (file : small_os.Handle) × (open_private_environment small_os production 0 (codes "A=1\n")
      ≡ ok file)
    × ReadOf small_os file 0 0 (codes "A=1\n") (codes "A=1\n") file_stat
    × (◌≡◌ {A = ℕ} 0 0 → OpenedByRoot small_os production (codes "A=1\n") file)
read_private_environment_payload-IsPrivateFile_example =
    read_private_environment_payload-IsPrivateFile small_os production 0 0 (codes "A=1\n")
      (codes "A=1\n") file_stat was_read
