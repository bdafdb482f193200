-- ===== src/Paths/ContentTypes.antt =====
-- The content type of a file by its extension, as src/mms_util.c guesses it.
use broncho_mms.Base.{none, some, if◌then◌else◌}
use Prim.Native.String.{String}
use mathlib.Core.List.{List, [], ◌∷◌}
use broncho_mms.Names.Pairs.{codes, same_text}
use broncho_mms.Memory.{CString}
use broncho_mms.Paths.Files.{get_file_ext_name}

pub record ExtType : Type 0 where
  pub ext : CString
  pub type : CString

abbrev ext_type : String → String → ExtType
ext_type ext type = record { ext = codes ext; type = codes type }

unfoldable pub g_ext_type : List ExtType
g_ext_type =
    ext_type "amr" "audio/amr"
    ∷ ext_type "mid" "audio/midi"
    ∷ ext_type "midi" "audio/midi"
    ∷ ext_type "wav" "audio/x-wav"
    ∷ ext_type "pcm" "audio/x-wav"
    ∷ ext_type "mp3" "audio/mpeg"
    ∷ ext_type "gif" "image/gif"
    ∷ ext_type "jpe" "image/jpeg"
    ∷ ext_type "jpg" "image/jpeg"
    ∷ ext_type "jpeg" "image/jpeg"
    ∷ ext_type "tiff" "image/tiff"
    ∷ ext_type "tif" "image/tiff"
    ∷ ext_type "png" "image/png"
    ∷ ext_type "bmp" "image/bmp"
    ∷ ext_type "wbmp" "image/vnd.wap.wbmp"
    ∷ ext_type "htm" "text/html"
    ∷ ext_type "html" "text/html"
    ∷ ext_type "wml" "application/wml+xml"
    ∷ ext_type "xml" "text/xml"
    ∷ ext_type "xhtml" "application/xhtml+xml"
    ∷ ext_type "c" "text/plain"
    ∷ ext_type "h" "text/plain"
    ∷ ext_type "txt" "text/plain"
    ∷ ext_type "cpp" "text/plain"
    ∷ ext_type "vcal" "text/x-vCalendar"
    ∷ ext_type "ics" "text/x-vCalendar"
    ∷ ext_type "vcs" "text/x-vCalendar"
    ∷ ext_type "vcard" "text/x-vCard"
    ∷ ext_type "vcf" "text/x-vCard"
    ∷ ext_type "pdf" "application/pdf"
    ∷ ext_type "doc" "application/msword"
    ∷ ext_type "xls" "application/vnd.ms-excel"
    ∷ ext_type "3gpp" "video/3gpp"
    ∷ ext_type "3gpp2" "video/3gpp2"
    ∷ ext_type "avi" "video/x-msvideo"
    ∷ ext_type "mpeg" "video/mpeg"
    ∷ ext_type "mp4" "video/mp4"
    ∷ ext_type "mms" "application/vnd.wap.mms-message"
    ∷ []

unfoldable pub find_type : List ExtType → CString → CString
unfolding same_text
find_type [] ext = codes "unknown"
find_type (t ∷ types) ext = if same_text t.ext ext then t.type else find_type types ext

-- The misspelling is the source's.
unfoldable pub get_file_content_type : CString → CString
unfolding find_type g_ext_type get_file_ext_name
get_file_content_type filename = elim (get_file_ext_name filename) [
  | none ↦ codes "unknowmn"
  | some ext ↦ find_type g_ext_type ext
]
