-- ===== src/AwsRds/Free/Room.antt =====
-- What a status of 0 of the `storage` and `memory` metrics means.
use puppet_stg_environment.Common.{
  ℕ, ◌≡◌, inl, inr, Option, none, some, false, Bool-cases, Option-cases, arith,
}
use puppet_stg_environment.Common.Text.{Text}
use puppet_stg_environment.AwsRds.Floats.{Floats}
use puppet_stg_environment.AwsRds.Stats.{Instance, Aws, get_rds_info, get_rds_stats}
use puppet_stg_environment.AwsRds.Outcome.{IsOk}
use puppet_stg_environment.AwsRds.Free.{
  Resource, cloudwatch_name, Scale, scale_of, size_of, free_status, value_for, judge_free,
  judge_instance, judge_answers, ask_free, check_free,
}

module _ {F : Type 0} (fl : Floats F) where
  -- The instance has a size, and what is free of it, in the unit of the thresholds, is above both.
  pub record HasRoom (r : Resource) (scale : Scale) (warn crit free : F) (i : Instance)
      : Type 0 where
    pub size : F
    pub size_text : Text
    pub ratio : F
    pub sized : size_of fl r i ≡ some (size, size_text)
    pub divided : fl.percent (fl.round2 (fl.gibibytes free)) size ≡ some ratio
    pub above_warn :
        fl.le
          (value_for fl scale (fl.round2 (fl.gibibytes free)) (fl.round2 ratio) size_text).0
          warn
        ≡ false
    pub above_crit :
        fl.le
          (value_for fl scale (fl.round2 (fl.gibibytes free)) (fl.round2 ratio) size_text).0
          crit
        ≡ false

  free_status-zero :
      (warn crit val : F)
      → free_status fl warn crit val ≡ 0
      → (fl.le val warn ≡ false) × (fl.le val crit ≡ false)
  unfolding free_status
  free_status-zero warn crit val h = ground arith

  two-not_zero : ◌≡◌ {A = ℕ} 2 0 → ⊥
  two-not_zero h = omega arith

  judge_instance-HasRoom :
      (r : Resource) (scale : Scale) (warn crit free : F) (i : Instance)
      → IsOk (judge_instance fl r scale warn crit free i)
      → HasRoom r scale warn crit free i
  unfolding judge_instance judge_free
  judge_instance-HasRoom r scale warn crit free i h = elim (Option-cases (size_of fl r i)) [
    | inl e ↦ absurd (two-not_zero (rw (judge_instance, e) at h))
    | inr ((size, size_text), e) ↦
        elim (Option-cases (fl.percent (fl.round2 (fl.gibibytes free)) size)) [
          | inl d ↦ absurd (rw (judge_instance, e, judge_free, d) at h)
          | inr (ratio, d) ↦
              let (w, c) =
                free_status-zero warn crit _ (rw (judge_instance, e, judge_free, d) at h) in
              record {
                size = size;
                size_text = size_text;
                ratio = ratio;
                sized = e;
                divided = d;
                above_warn = w;
                above_crit = c;
              }
        ]
  ]

  -- Amazon's answers behind a status of 0.
  pub record IsAnswered (aws : Aws F) (ident : Text) (r : Resource) (scale : Scale) (warn crit : F)
      : Type 0 where
    pub info : Instance
    pub free : F
    pub found : get_rds_info aws ident ≡ some (some info)
    pub stated : get_rds_stats fl aws 60 60 (cloudwatch_name r) ident ≡ some (some free)
    pub something : fl.is_zero free ≡ false
    pub room : HasRoom r scale warn crit free info

  three-not_zero : ◌≡◌ {A = ℕ} 3 0 → ⊥
  three-not_zero h = omega arith

  answers-IsAnswered :
      (aws : Aws F) (ident : Text) (r : Resource) (scale : Scale) (warn crit : F)
      (info : Option Instance) (free : Option F)
      → get_rds_info aws ident ≡ some info
      → get_rds_stats fl aws 60 60 (cloudwatch_name r) ident ≡ some free
      → IsOk (judge_answers fl r scale warn crit info free)
      → IsAnswered aws ident r scale warn crit
  unfolding judge_answers
  answers-IsAnswered aws ident r scale warn crit none free i s h = absurd (three-not_zero h)
  answers-IsAnswered aws ident r scale warn crit (some info) none i s h = absurd (three-not_zero h)
  answers-IsAnswered aws ident r scale warn crit (some info) (some free) i s h =
      elim (Bool-cases (fl.is_zero free)) [
        | inl z ↦ absurd (three-not_zero (rw (judge_answers, z) at h))
        | inr z ↦ record {
          info = info;
          free = free;
          found = i;
          stated = s;
          something = z;
          room = judge_instance-HasRoom r scale warn crit free info (rw (judge_answers, z) at h);
        }
      ]

  ask_free-IsAnswered :
      (aws : Aws F) (ident : Text) (r : Resource) (scale : Scale) (warn crit : F)
      → IsOk (ask_free fl aws ident r scale warn crit)
      → IsAnswered aws ident r scale warn crit
  unfolding ask_free
  ask_free-IsAnswered aws ident r scale warn crit h = elim (Option-cases (get_rds_info aws ident)) [
    | inl i ↦ absurd (rw (ask_free, i) at h)
    | inr (info, i) ↦ elim (Option-cases (get_rds_stats fl aws 60 60 (cloudwatch_name r) ident)) [
      | inl s ↦ absurd (rw (ask_free, i, s) at h)
      | inr (free, s) ↦
          answers-IsAnswered aws ident r scale warn crit info free i s (rw (ask_free, i, s) at h)
    ]
  ]

  -- The thresholds are numbers, the critical one not above the other, the unit is known, and Amazon
  -- tells of an instance with room.
  pub record IsRoomy (aws : Aws F) (ident : Text) (r : Resource) (warn crit unit : Text)
      : Type 0 where
    pub warn_value : F
    pub crit_value : F
    pub scale : Scale
    pub read_warn : fl.parse warn ≡ some warn_value
    pub read_crit : fl.parse crit ≡ some crit_value
    pub consistent : fl.lt warn_value crit_value ≡ false
    pub known : scale_of unit ≡ some scale
    pub answered : IsAnswered aws ident r scale warn_value crit_value

  -- The status of these metrics is 0 only with room above both thresholds.
  pub check_free-IsRoomy :
      (aws : Aws F) (ident : Text) (r : Resource) (warn crit unit : Text)
      → IsOk (check_free fl aws ident r warn crit unit)
      → IsRoomy aws ident r warn crit unit
  unfolding check_free
  check_free-IsRoomy aws ident r warn crit unit h = elim (Option-cases (fl.parse warn)) [
    | inl w ↦ absurd (rw (check_free, w) at h)
    | inr (x, w) ↦ elim (Option-cases (fl.parse crit)) [
      | inl c ↦ absurd (rw (check_free, w, c) at h)
      | inr (y, c) ↦ elim (Bool-cases (fl.lt x y)) [
        | inl l ↦ absurd (rw (check_free, w, c, l) at h)
        | inr l ↦ elim (Option-cases (scale_of unit)) [
          | inl u ↦ absurd (rw (check_free, w, c, l, u) at h)
          | inr (scale, u) ↦ record {
            warn_value = x;
            crit_value = y;
            scale = scale;
            read_warn = w;
            read_crit = c;
            consistent = l;
            known = u;
            answered = ask_free-IsAnswered aws ident r scale x y (rw (check_free, w, c, l, u) at h);
          }
        ]
      ]
    ]
  ]
