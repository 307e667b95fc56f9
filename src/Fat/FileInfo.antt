-- ===== src/Fat/FileInfo.antt =====
-- src/dftp/dfsfat/fileinfo.go: a stat as os.FileInfo and as the FTP server's file info. A time is its
-- Unix seconds.
use dftp.Base.{ℕ, ℤ, Bool, Text, codes}
use dftp.Fat.{FileStat}

-- `FileStat.Name`
abbrev pub name : FileStat → Text
name fs = fs.basename

-- `FileStat.Size`
abbrev pub size : FileStat → ℤ
size fs = fs.size_in_bytes

-- `FileStat.Mode`
abbrev pub mode : FileStat → ℕ
mode fs = fs.file_mode

-- `FileStat.ModTime`
abbrev pub mod_time : FileStat → ℤ
mod_time fs = fs.last_modified

-- `FileStat.IsDir`
abbrev pub is_dir : FileStat → Bool
is_dir fs = fs.dir

-- `FileStat.Sys`
abbrev pub sys : FileStat → FileStat
sys fs = fs

-- `FileStat.Owner`
abbrev pub owner : FileStat → Text
owner fs = codes "dftp"

-- `FileStat.Group`
abbrev pub group : FileStat → Text
group fs = codes "dftp"
