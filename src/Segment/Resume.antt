-- ===== src/Segment/Resume.antt =====
-- Dtool_impl/src/downloader/segment.rs: what is kept of a download that is to be taken up again, and the
-- error of a conversion into a segment.
use Prim.Native.String.{String}
use rs_dtool.Base.{List}
use rs_dtool.Http.{Library, RequestInfo}
use rs_dtool.Segment.{Segment}

pub record ResumeInfo (L : Library) : Type 0 where
  pub request : RequestInfo L
  pub segments : List Segment

pub data FromSegmentIterError : Type 0 where
  exhausted : FromSegmentIterError

abbrev pub display_from_segment_iter : FromSegmentIterError → String
display_from_segment_iter exhausted = "无法转换已耗尽迭代器"
