-- ===== src/GroupImpl.antt =====
-- Dtool_impl/src/downloader/group_impl.rs: what a download puts into its group. An atomic cell that stands in
-- a shared part is its value there, and a counted reference to one is its address.
use rs_dtool.Base.{ℕ, Bool, Option}
use rs_dtool.Error.{Result, SubError}
use rs_dtool.Http.{Library, RequestInfo}
use rs_dtool.Group.Slots.{GroupExt}
use rs_dtool.Transfer.{BufWriter}

module _ (L : Library) (W : BufWriter) where
  -- The writer is the state of what is written to.
  pub record GroupShareExt : Type 0 where
    pub info : RequestInfo L
    pub process : ℕ
    pub writer : W.Disk
    pub abort : Bool

  pub record SlotExt : Type 0 where
    pub end : ℕ

  -- The counter of what remains.
  pub record SlotShareExt : Type 0 where
    pub remain : ℕ

  -- `Ext<W, S>` as a `GroupExt`, for streams with errors of the type `S`.
  abbrev pub Ext : Type 0 → GroupExt
  Ext S = record {
    GroupShare = GroupShareExt;
    Data = Unit {0};
    IdleData = Result (Unit {0}) (SubError S W.Error);
    BusyData = ℕ;
    SlotInlock = SlotExt;
    SlotShare = SlotShareExt;
  }

  -- What a first request has led to.
  pub record CanResume : Type 0 where
    pub response1 : L.Response
    pub remain1 : ℕ
    pub response2 : Option (L.Response × ℕ)
    pub writer : W.Disk
    pub info : RequestInfo L
    pub length : ℕ

  pub record CannotResume : Type 0 where
    pub response : L.Response
    pub remain : ℕ
    pub writer : W.Disk
    pub info : RequestInfo L
    pub length : ℕ
