-- ===== src/Examples/SambaExamples.antt =====
-- samba/include.py at concrete inputs.
use smbpal_desktop.Prelude.{contains, ends_with, ℕ, ◌≡◌, refl, List, codes, ok, err}
use smbpal_desktop.Config.Mountpoint.{lstrip, rstrip}
use smbpal_desktop.Samba.Include.{
  split_keeping, has_include, is_global_header, line_ending, block, no_global, unterminated,
  insert_block, insert_include, remove_block, remove_include,
}
use smbpal_desktop.Samba.Include.Block.{IsPath}
use smbpal_desktop.Samba.Include.Marked.{insert_include-insert_include}
use smbpal_desktop.Samba.Include.RoundTrip.{remove_include-insert_include}

abbrev conf_path : List ℕ
conf_path = codes "/etc/x"

abbrev stock : List ℕ
stock = codes "# x\n [Global]\r\nworkgroup = W\n"

abbrev with_block : List ℕ
with_block =
    codes
      "# x\n [Global]\r\n# >>> smbpal >>>\r\ninclude = /etc/x\r\n# <<< smbpal <<<\r\nworkgroup = W\n"

insert_stock : insert_include conf_path stock ≡ ok with_block
unfolding insert_include insert_block has_include contains split_keeping is_global_header
    line_ending ends_with block lstrip rstrip
insert_stock = refl

insert_nowhere : insert_include conf_path (codes "[print$]\n") ≡ err no_global
unfolding insert_include insert_block has_include contains split_keeping is_global_header lstrip
    rstrip
insert_nowhere = refl

remove_open : remove_include conf_path (codes "# >>> smbpal >>>\nx\n") ≡ err unterminated
unfolding remove_include remove_block split_keeping lstrip rstrip
remove_open = refl

-- Where the header has no line end, the marker joins it, and what was inserted is not removed.
remove_joined :
    remove_include conf_path
      (codes "[global]# >>> smbpal >>>\ninclude = /etc/x\n# <<< smbpal <<<\n")
    ≡ ok (codes "[global]# >>> smbpal >>>\n# <<< smbpal <<<\n")
unfolding remove_include remove_block split_keeping lstrip rstrip
remove_joined = refl

insert_joined :
    insert_include conf_path (codes "[global]")
    ≡ ok (codes "[global]# >>> smbpal >>>\ninclude = /etc/x\n# <<< smbpal <<<\n")
unfolding insert_include insert_block has_include contains split_keeping is_global_header
    line_ending ends_with block lstrip rstrip
insert_joined = refl

insert_include-insert_include_example : insert_include conf_path with_block ≡ ok with_block
insert_include-insert_include_example =
    insert_include-insert_include conf_path stock with_block insert_stock

remove_include-insert_include_example : remove_include conf_path with_block ≡ ok stock
unfolding IsPath has_include contains split_keeping lstrip rstrip
remove_include-insert_include_example =
    remove_include-insert_include conf_path stock with_block
      (refl, (refl, (refl, (refl, (refl, (refl, tt)))))) refl refl (refl, (refl, (refl, tt)))
      insert_stock
