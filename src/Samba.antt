-- ===== src/Samba.antt =====
-- smbpal/samba: the files that are written for Samba.
pub mod Conf
pub mod Include
