-- ===== src/Tests/ConfigExamples.antt =====
-- A configuration file that is loaded.
use ftp_server.Prelude.{
  to_int_small, ap, sym, ◌∙◌, arith, to_int, length, ◌≡◌, ◌≢◌, refl, true, [], some, Bytes, pos,
}
use ftp_server.Text.Ctype.{codes, is_blank, is_space, is_digit, to_lower, strcasecmp}
use ftp_server.Text.Util.{skip_blanks, back_over_spaces, trim_whitespace, trim_in_line}
use ftp_server.Auth.{is_same}
use ftp_server.Machine.Types.{ftp_success}
use ftp_server.Server.Buffer.{cut, c_string, skip_spaces}
use ftp_server.Config.Settings.{Settings, default_settings}
use ftp_server.Config.Parse.{
  digit_value, read_digits, read_based, read_signed, is_int, store_int, parse_attribute_int, is_yes,
  parse_attribute_bool, parse_attribute_string, store, find_option, store_named, split_option,
  parse_attribute, file_lines, parse_lines, parse_config, read_behind, last_read,
}
use ftp_server.Config.Check.{
  no_port, exceeds, below_minus_one, is_null, check_config, file, checked, closing, load_mapped,
  load_config, IsUsable, load_config-IsUsable,
}

abbrev conf : Bytes
conf = codes "# server\n\nLocalPort = 0x15\r\nAllowAnonymous = yes\nanonrootdir=/srv/ftp \n"

abbrev loaded : Settings
loaded = record default_settings {
  port = pos 21;
  allow_anon = true;
  anon_root_dir = some (codes "/srv/ftp");
}

mapped :
    load_mapped true (λ n. (true, true)) 3 conf default_settings (pos (length conf))
    ≡ some (record { ret = ftp_success; settings = loaded; left_open = [] })
unfolding load_mapped closing read_behind last_read parse_config parse_lines file_lines
    parse_attribute split_option store_named find_option store parse_attribute_string
    parse_attribute_bool is_yes parse_attribute_int store_int is_int read_signed read_based
    read_digits digit_value checked check_config no_port exceeds below_minus_one is_null cut
    c_string skip_spaces is_same strcasecmp to_lower is_digit is_space is_blank skip_blanks
    back_over_spaces trim_whitespace trim_in_line
mapped = refl

fits : to_int (pos (length conf)) ≡ pos (length conf)
fits = to_int_small (length conf) (omega arith)

loads :
    load_config true (λ n. (true, true)) (file 3 conf) default_settings
    ≡ some (record { ret = ftp_success; settings = loaded; left_open = [] })
unfolding load_config
loads = ap (load_mapped true (λ n. (true, true)) 3 conf default_settings) fits ∙ mapped

not_empty : to_int (pos (length conf)) ≢ pos 0
not_empty e = let n : pos (length conf) ≡ pos 0 = sym fits ∙ e in cc

load_config-IsUsable_example : IsUsable loaded
load_config-IsUsable_example =
    load_config-IsUsable true (λ n. (true, true)) 3 conf default_settings _ not_empty loads refl
