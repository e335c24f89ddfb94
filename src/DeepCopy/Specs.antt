-- ===== src/DeepCopy/Specs.antt =====
-- Copies of specs by pkg/apis/jupyter/v1/zz_generated.deepcopy.go, as the memory grows.
use jupyter_operator.DeepCopy.{SpecCell, Pointees}
use jupyter_operator.DeepCopy.Growth.{
  Grows-refl, Grows-trans, Known-Grows, Copied-Grows, Copied-since,
}
use jupyter_operator.DeepCopy.Copies.{KnownSpec, GrowsPointees, CopiedSpec}

pub GrowsPointees-refl : (p : Pointees) → GrowsPointees p p
GrowsPointees-refl p = record {
  texts = Grows-refl p.texts;
  backends = Grows-refl p.backends;
  arrays = Grows-refl p.arrays;
}

pub GrowsPointees-trans :
    (p q r : Pointees) → GrowsPointees p q → GrowsPointees q r → GrowsPointees p r
GrowsPointees-trans p q r g h = record {
  texts = Grows-trans p.texts q.texts r.texts g.texts h.texts;
  backends = Grows-trans p.backends q.backends r.backends g.backends h.backends;
  arrays = Grows-trans p.arrays q.arrays r.arrays g.arrays h.arrays;
}

pub KnownSpec-Grows :
    (p q : Pointees) (s : SpecCell) → GrowsPointees p q → KnownSpec p s → KnownSpec q s
KnownSpec-Grows p q s g k = record {
  flavor = Known-Grows p.texts q.texts s.flavor g.texts k.flavor;
  host = Known-Grows p.texts q.texts s.host g.texts k.host;
  ingress = Known-Grows p.backends q.backends s.ingress g.backends k.ingress;
  packages = Known-Grows p.arrays q.arrays s.packages g.arrays k.packages;
  password = Known-Grows p.texts q.texts s.password g.texts k.password;
  account = Known-Grows p.texts q.texts s.service_account_name g.texts k.account;
  tls = Known-Grows p.texts q.texts s.tls g.texts k.tls;
}

-- A copy stays one while the memory grows, and was one of what was known before.
pub CopiedSpec-Grows :
    (p q r : Pointees) (s c : SpecCell)
    → CopiedSpec p q s c
    → GrowsPointees q r
    → CopiedSpec p r s c
CopiedSpec-Grows p q r s c h g = record {
  grows = GrowsPointees-trans p q r h.grows g;
  flavor = Copied-Grows p.texts q.texts r.texts _ _ h.flavor g.texts;
  same_gpu = h.same_gpu;
  host = Copied-Grows p.texts q.texts r.texts _ _ h.host g.texts;
  ingress = Copied-Grows p.backends q.backends r.backends _ _ h.ingress g.backends;
  packages = Copied-Grows p.arrays q.arrays r.arrays _ _ h.packages g.arrays;
  password = Copied-Grows p.texts q.texts r.texts _ _ h.password g.texts;
  account = Copied-Grows p.texts q.texts r.texts _ _ h.account g.texts;
  tls = Copied-Grows p.texts q.texts r.texts _ _ h.tls g.texts;
}

pub CopiedSpec-since :
    (o p q : Pointees) (s c : SpecCell)
    → GrowsPointees o p
    → KnownSpec o s
    → CopiedSpec p q s c
    → CopiedSpec o q s c
CopiedSpec-since o p q s c g k h = record {
  grows = GrowsPointees-trans o p q g h.grows;
  flavor = Copied-since o.texts p.texts q.texts _ _ g.texts k.flavor h.flavor;
  same_gpu = h.same_gpu;
  host = Copied-since o.texts p.texts q.texts _ _ g.texts k.host h.host;
  ingress = Copied-since o.backends p.backends q.backends _ _ g.backends k.ingress h.ingress;
  packages = Copied-since o.arrays p.arrays q.arrays _ _ g.arrays k.packages h.packages;
  password = Copied-since o.texts p.texts q.texts _ _ g.texts k.password h.password;
  account = Copied-since o.texts p.texts q.texts _ _ g.texts k.account h.account;
  tls = Copied-since o.texts p.texts q.texts _ _ g.texts k.tls h.tls;
}
